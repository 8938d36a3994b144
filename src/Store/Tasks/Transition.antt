-- ===== src/Store/Tasks/Transition.antt =====
-- What `transition_local_task` does, with its transaction and its reads worked out.
use vermay_agent.Prelude.{
  ℕ, ◌+◌, String, ◌==◌, eq_refl, ◌≡◌, refl, true, false, Option, none, some, is_some, if◌then◌else◌,
  arith, Option-cases, inl, inr,
}
use mathlib.Core.Option
use vermay_agent.Prelude.Table.{lookup-update, key-lookup}
use vermay_agent.Exec.{Result, ok, err, unknown_task, remote_proxy_local_transition}
use vermay_agent.Json.{Fields}
use vermay_agent.Lifecycle.{
  TaskStatus, created, queued, running, cancel_requested, input_required, auth_required, completed,
  canceled, failed, validate_local_task_transition, lifecycle_event_type_for_status,
}
use vermay_agent.Store.{Store, TaskRecord, task_key}
use vermay_agent.Store.Tasks.{
  find_task, get_task, or_empty, insert_event, append_task_event, set_status, update_task, Failure,
  apply_transition, transition_local_task,
}

abbrev pub event_name : TaskStatus → String
event_name created = ""
event_name queued = "task_queued"
event_name running = "task_started"
event_name input_required = "task_interrupted"
event_name auth_required = "task_interrupted"
event_name cancel_requested = "task_cancel_requested"
event_name completed = "task_completed"
event_name canceled = "task_cancelled"
event_name failed = "task_failed"

pub event_type-accepted :
    (a b : TaskStatus)
    → validate_local_task_transition a b ≡ ok true
    → lifecycle_event_type_for_status b ≡ ok (event_name b)
unfolding validate_local_task_transition lifecycle_event_type_for_status
event_type-accepted a b h = ground arith

-- The record after a change to `target`.
abbrev pub changed : TaskStatus → Failure → TaskRecord → TaskRecord
changed target failure = set_status target failure.code failure.message failure.retryable

-- The store after a change: the row rewritten, and one event with the new revision.
abbrev pub recorded : TaskStatus → Option Fields → Failure → TaskRecord → Store → Store
recorded target payload failure t s =
    insert_event t.task_id (event_name target) (some target) (t.lifecycle_revision + 1)
      (or_empty payload) (update_task t.task_id (changed target failure) s)

pub find_task-update_task :
    (k j : String) (f : TaskRecord → TaskRecord) (s : Store)
    → ((t : TaskRecord) → (f t).task_id ≡ t.task_id)
    → find_task j (update_task k f s)
      ≡ (if k == j then Option.map f (find_task j s) else find_task j s)
unfolding find_task update_task
find_task-update_task k j f s same = lookup-update task_key k j f s.tasks same

pub find_task-insert_event :
    (j k type : String) (status : Option TaskStatus) (revision : ℕ) (payload : Fields) (s : Store)
    → find_task j (insert_event k type status revision payload s) ≡ find_task j s
unfolding find_task insert_event
find_task-insert_event j k type status revision payload s = refl

pub task_id-find_task :
    (task_id : String) (s : Store) (t : TaskRecord)
    → find_task task_id s ≡ some t
    → t.task_id ≡ task_id
unfolding find_task
task_id-find_task task_id s t h = key-lookup task_key task_id s.tasks t h

pub append_task_event_lem :
    (task_id type : String) (status : Option TaskStatus) (payload : Option Fields) (s : Store)
    (t : TaskRecord)
    → find_task task_id s ≡ some t
    → append_task_event task_id type status payload s
      ≡ (ok tt, insert_event task_id type status t.lifecycle_revision (or_empty payload) s)
unfolding append_task_event get_task
append_task_event_lem task_id type status payload s t h = rw h

-- After the row is rewritten it is read back as written.
find_changed :
    (t : TaskRecord) (f : TaskRecord → TaskRecord) (s : Store)
    → ((t : TaskRecord) → (f t).task_id ≡ t.task_id)
    → find_task t.task_id s ≡ some t
    → find_task t.task_id (update_task t.task_id f s) ≡ some (f t)
find_changed t f s same h = rw (find_task-update_task t.task_id t.task_id f s same, eq_refl, h)

apply_transition_lem :
    (t : TaskRecord) (target : TaskStatus) (payload : Option Fields) (failure : Failure) (s : Store)
    → lifecycle_event_type_for_status target ≡ ok (event_name target)
    → find_task t.task_id s ≡ some t
    → apply_transition t target payload failure s
      ≡ (ok (changed target failure t), recorded target payload failure t s)
unfolding apply_transition get_task
apply_transition_lem t target payload failure s event h =
    let after = update_task t.task_id (changed target failure) s in
    let found = find_changed t (changed target failure) s (λ u. refl) h in
    ground (
      arith,
      event,
      found,
      append_task_event_lem t.task_id (event_name target) (some target) payload after
          (changed target failure t) found,
    )

-- The branches of `transition_local_task`, each with the store that it leaves.
abbrev pub transition_outcome :
    String
    → TaskStatus
    → Option Fields
    → Failure
    → Store
    → Option TaskRecord
    → Result TaskRecord × Store
transition_outcome task_id target payload failure s none = (err (unknown_task task_id), s)
transition_outcome task_id target payload failure s (some t) =
    if is_some t.assigned_agent_id
    then (err (remote_proxy_local_transition task_id), s)
    else elim (validate_local_task_transition t.status target) [
      | err e ↦ (err e, s)
      | ok false ↦ (ok t, s)
      | ok true ↦ (ok (changed target failure t), recorded target payload failure t s)
    ]

transition_of_missing :
    (task_id : String) (target : TaskStatus) (payload : Option Fields) (failure : Failure)
    (s : Store)
    → find_task task_id s ≡ none
    → transition_local_task task_id target payload failure s ≡ (err (unknown_task task_id), s)
unfolding transition_local_task get_task
transition_of_missing task_id target payload failure s h = ground (arith, h)

transition_of_found :
    (task_id : String) (target : TaskStatus) (payload : Option Fields) (failure : Failure)
    (s : Store) (t : TaskRecord)
    → find_task task_id s ≡ some t
    → transition_local_task task_id target payload failure s
      ≡ transition_outcome task_id target payload failure s (some t)
unfolding transition_local_task get_task
transition_of_found task_id target payload failure s t h = ground (
  arith,
  h,
  task_id-find_task task_id s t h,
  event_type-accepted t.status target,
  apply_transition_lem t target payload failure s,
)

-- `transition_local_task` raises, and then leaves the store as it was, for an unknown Task, a remote
-- proxy or a refused change; it returns the record unchanged for the status that the Task has; and
-- for an accepted change it writes the status and the failure columns, counts the revision up by
-- one and appends one event with the target and the new revision.
pub transition_local_task_lem :
    (task_id : String) (target : TaskStatus) (payload : Option Fields) (failure : Failure)
    (s : Store)
    → transition_local_task task_id target payload failure s
      ≡ transition_outcome task_id target payload failure s (find_task task_id s)
transition_local_task_lem task_id target payload failure s =
    elim (Option-cases (find_task task_id s)) [
      | inl missing ↦ rw missing (transition_of_missing task_id target payload failure s missing)
      | inr (t, found) ↦ rw found (transition_of_found task_id target payload failure s t found)
    ]
