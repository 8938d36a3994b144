-- ===== src/Outcomes/Completes.antt =====
-- What `_record_completed_result` leaves, read off its chain of writes.
use mathlib.Core.Path.{subst}
use vermay_agent.Prelude.{
  String, ◌+◌, eq_refl, eq_iff, ◌≡◌, refl, true, false, Option, none, some, opt_eq, arith,
  Option-cases, inl, inr,
}
use vermay_agent.Prelude.Table.{lookup-remove, key-lookup}
use vermay_agent.Exec.{Result-cases, ok}
use vermay_agent.Json.{Fields}
use vermay_agent.Lifecycle.{TaskStatus, running, completed, validate_local_task_transition}
use vermay_agent.Store.{Store, TaskRecord, MessageRecord, pending_key, queued_key}
use vermay_agent.Store.Tasks.{
  find_task, get_task, update_task, transition_local_task, no_failure, Failure,
}
use vermay_agent.Store.Tasks.Transition.{
  transition_local_task_lem, task_id-find_task, find_task-update_task,
}
use vermay_agent.Store.Messages.{
  NewMessage, message_key, find_message, replayed_message, fresh_message, append_message,
  set_task_output_message,
}
use vermay_agent.Store.Queue.{
  find_pending, find_queued, remove_pending, remove_queued, clear_pending_continuation,
  clear_queued_task_execution,
}
use vermay_agent.Outcomes.{
  LocalTaskRunResult, ErrorInfo, task_result_lifecycle_payload, local_process_status,
}
use vermay_agent.Outcomes.Results.{
  complete_task, close_completed, record_completed_result, while_open, publish_answer,
  persist_observations, answer_message, record_local_result, record_accepted_result,
}
use vermay_agent.Outcomes.Steps.{find_recorded}

same_of_unchanged : (a b : TaskStatus) → validate_local_task_transition a b ≡ ok false → a ≡ b
unfolding validate_local_task_transition
same_of_unchanged a b h = ground arith

transition_found :
    (task_id : String) (target : TaskStatus) (payload : Option Fields) (failure : Failure)
    (s after : Store) (u t : TaskRecord)
    → find_task task_id s ≡ some t
    → transition_local_task task_id target payload failure s ≡ (ok u, after)
    → (find_task task_id after ≡ some u)
      × (u.status ≡ target)
      × (u.output_message_id ≡ t.output_message_id)
transition_found task_id target payload failure s after u t found h = ground (
  arith,
  h,
  found,
  task_id-find_task task_id s t found,
  same_of_unchanged t.status target,
  find_recorded t target payload failure s,
  transition_local_task_lem task_id target payload failure s,
)

-- The record that a transition returns is the one stored.
pub transition_ok :
    (task_id : String) (target : TaskStatus) (payload : Option Fields) (failure : Failure)
    (s after : Store) (u : TaskRecord)
    → transition_local_task task_id target payload failure s ≡ (ok u, after)
    → (t : TaskRecord) × (find_task task_id s ≡ some t)
      × (find_task task_id after ≡ some u)
      × (u.status ≡ target)
      × (u.output_message_id ≡ t.output_message_id)
transition_ok task_id target payload failure s after u h =
    elim (Option-cases (find_task task_id s)) [
      | inl missing ↦
          ground (arith, h, missing, transition_local_task_lem task_id target payload failure s)
      | inr (t, found) ↦
          let (stored, status, output) =
            transition_found task_id target payload failure s after u t found h in
          (t, found, stored, status, output)
    ]

find_message_id :
    (k : String) (s : Store) (m : MessageRecord) → find_message k s ≡ some m → m.message_id ≡ k
unfolding find_message
find_message_id k s m h = key-lookup message_key k s.messages m h

fresh_message_id :
    (m : NewMessage) (s after : Store) (r : MessageRecord)
    → fresh_message m s ≡ (ok r, after)
    → r.message_id ≡ m.message_id
unfolding fresh_message
fresh_message_id m s after r h = find_message_id m.message_id after r (ground arith)

append_message_id :
    (m : NewMessage) (s after : Store) (r : MessageRecord)
    → append_message m s ≡ (ok r, after)
    → r.message_id ≡ m.message_id
unfolding append_message replayed_message
append_message_id m s after r h =
    ground (arith, h, fresh_message_id m s after r, find_message_id m.message_id s r)

output_written :
    (task_id message_id : String) (f : TaskRecord → TaskRecord) (s : Store) (t u : TaskRecord)
    → ((x : TaskRecord) → (f x).task_id ≡ x.task_id)
    → find_task task_id s ≡ some t
    → find_task task_id (update_task task_id f s) ≡ some u
    → u ≡ f t
output_written task_id message_id f s t u same h k =
    ground (arith, h, k, eq_refl task_id, find_task-update_task task_id task_id f s same)

abbrev with_output : String → TaskRecord → TaskRecord
with_output message_id t = record t {
  output_message_id = some message_id;
  lifecycle_revision = t.lifecycle_revision + 1;
}

same_output : (o : Option String) (m : String) → opt_eq o (some m) ≡ true → o ≡ some m
same_output none m h = cc
same_output (some n) m h = ground (arith, h, eq_iff n m)

set_output_ok :
    (task_id message_id : String) (s after : Store) (u : TaskRecord)
    → set_task_output_message task_id message_id s ≡ (ok u, after)
    → (find_task task_id after ≡ some u) × (u.output_message_id ≡ some message_id)
unfolding set_task_output_message get_task
set_output_ok task_id message_id s after u h = elim (Option-cases (find_task task_id s)) [
  | inl missing ↦ ground (arith, h, missing)
  | inr (t, found) ↦ ground (
    arith,
    h,
    found,
    same_output t.output_message_id message_id,
    output_written task_id message_id (with_output message_id) s t u (λ x. refl) found,
  )
]

-- The end of the chain: the pending continuation and the queued command are gone.
cleared :
    (task_id : String) (s : Store)
    → (find_task task_id (remove_queued task_id (remove_pending task_id s)) ≡ find_task task_id s)
      × (find_pending task_id (remove_queued task_id (remove_pending task_id s)) ≡ none)
      × (find_queued task_id (remove_queued task_id (remove_pending task_id s)) ≡ none)
unfolding find_pending find_queued remove_pending remove_queued find_task
cleared task_id s = (
  refl,
  ground (arith, lookup-remove pending_key task_id task_id s.pending, eq_refl task_id),
  ground (arith, lookup-remove queued_key task_id task_id s.queued, eq_refl task_id),
)

-- A completed Task: stored, with the id of its answer, and neither waiting nor queued.
pub record IsCompleted (task_id message_id : String) (v : TaskRecord) (after : Store) : Type 0 where
  pub stored : find_task task_id after ≡ some v
  pub status : v.status ≡ completed
  pub output : v.output_message_id ≡ some message_id
  pub no_pending : find_pending task_id after ≡ none
  pub no_queued : find_queued task_id after ≡ none

-- The two calls in the chain that may raise, and what they returned.
close_steps :
    (task_id : String) (result : LocalTaskRunResult) (observed : Option String)
    (message_id : String) (v : TaskRecord) (s after : Store)
    → close_completed task_id result observed message_id s ≡ (ok v, after)
    → (w : TaskRecord) × (mid last : Store) × (set_task_output_message task_id message_id s
        ≡ (ok w, mid))
      × (transition_local_task task_id completed
            (some (task_result_lifecycle_payload result observed))
            no_failure
            mid
          ≡ (ok v, last))
      × (after ≡ remove_queued task_id (remove_pending task_id last))
unfolding close_completed clear_pending_continuation clear_queued_task_execution
close_steps task_id result observed message_id v s after h =
    let mid = (set_task_output_message task_id message_id s).1 in
    let payload = some (task_result_lifecycle_payload result observed) in
    let ended = transition_local_task task_id completed payload no_failure mid in
    elim (Result-cases (set_task_output_message task_id message_id s).0) [
      | inl (e, bad) ↦ ground (arith, h, bad)
      | inr (w, good) ↦ elim (Result-cases ended.0) [
        | inl (e, bad) ↦ ground (arith, h, good, bad)
        | inr (u, moved) ↦ (
          w,
          mid,
          ended.1,
          ground (arith, good),
          ground (arith, h, good, moved),
          ground (arith, h, good, moved),
        )
      ]
    ]

close_completed_ok :
    (task_id : String) (result : LocalTaskRunResult) (observed : Option String)
    (message_id : String) (v : TaskRecord) (s after : Store)
    → close_completed task_id result observed message_id s ≡ (ok v, after)
    → IsCompleted task_id message_id v after
close_completed_ok task_id result observed message_id v s after h =
    let (w, mid, last, wrote, moved, is_after) =
      close_steps task_id result observed message_id v s after h in
    let (t, found, stored, status, output) =
      transition_ok task_id completed (some (task_result_lifecycle_payload result observed))
        no_failure mid last v moved in
    let (kept, no_pending, no_queued) = cleared task_id last in
    let (written, written_output) = set_output_ok task_id message_id s mid w wrote in
    record {
      stored = ground (arith, is_after, kept, stored);
      status = status;
      output = ground (arith, found, written, output, written_output);
      no_pending = ground (arith, is_after, no_pending);
      no_queued = ground (arith, is_after, no_queued);
    }

complete_task_ok :
    (task_id : String) (result : LocalTaskRunResult) (metadata : Option Fields)
    (message_id : String) (t v : TaskRecord) (s after : Store)
    → complete_task task_id result metadata message_id t s ≡ (ok v, after)
    → IsCompleted task_id message_id v after
unfolding complete_task answer_message
complete_task_ok task_id result metadata message_id t v s after h =
    let observing = persist_observations t result s in
    let answering =
      append_message (answer_message task_id result metadata message_id t) observing.1 in
    elim (Result-cases observing.0) [
      | inl (e, bad) ↦ ground (arith, h, bad)
      | inr (observed, seen) ↦ elim (Result-cases answering.0) [
        | inl (e, bad) ↦ ground (arith, h, seen, bad)
        | inr (message, said) ↦
            let publishing =
              publish_answer task_id result observed t message.message_id answering.1 in
            let is_id =
              append_message_id (answer_message task_id result metadata message_id t) observing.1
                answering.1 message (ground (arith, said)) in
            elim (Result-cases publishing.0) [
              | inl (e, bad) ↦ ground (arith, h, seen, said, bad)
              | inr (u, shown) ↦
                  subst (λ id. IsCompleted task_id id v after) is_id
                    (close_completed_ok task_id result observed message.message_id v publishing.1
                      after (ground (arith, h, seen, said, shown)))
            ]
      ]
    ]

-- When the run of a Task that still runs brings back a completed result and recording it returns,
-- the Task is the one stored, is completed, names the message of its answer, and has neither a
-- pending continuation nor a queued command.
pub completed_result :
    (t v : TaskRecord) (result : LocalTaskRunResult) (metadata : Option Fields)
    (message_id : String) (unsupported : ErrorInfo) (s after : Store)
    → find_task t.task_id s ≡ some t
    → t.status ≡ running
    → result.status ≡ completed
    → record_local_result t.task_id result metadata message_id unsupported s ≡ (ok v, after)
    → IsCompleted t.task_id message_id v after
unfolding record_local_result record_accepted_result record_completed_result while_open
    local_process_status get_task
completed_result t v result metadata message_id unsupported s after found runs done h =
    complete_task_ok t.task_id result metadata message_id t v s after
      (ground (arith, found, runs, done, h))
