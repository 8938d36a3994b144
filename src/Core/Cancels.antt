-- ===== src/Core/Cancels.antt =====
-- What an accepted cancellation leaves.
use vermay_agent.Prelude.{
  String, eq_refl, ◌==◌, ◌≡◌, refl, Bool, true, false, ◌&&◌, Option, none, some, List, [], ◌∷◌, map,
  select, is_some, or_text, arith, Bool-cases, inl, inr,
}
use vermay_agent.Prelude.Table.{lookup-remove}
use vermay_agent.Exec.{ok}
use vermay_agent.Lifecycle.{
  TaskStatus, running, cancel_requested, canceled, is_terminal, status_eq,
  validate_local_task_transition,
}
use vermay_agent.Store.{Store, TaskRecord, ToolInvocationRecord, prepared, pending_key, queued_key}
use vermay_agent.Store.Tasks.{find_task, get_task, transition_local_task, no_failure}
use vermay_agent.Store.Tasks.Transition.{changed, recorded}
use vermay_agent.Store.Queue.{
  find_pending, find_queued, remove_pending, remove_queued, clear_pending_continuation,
  clear_queued_task_execution,
}
use vermay_agent.Store.Invocations.{
  of_task, dropped, invocation_status_eq, cancel_all_prepared, cancel_prepared_tool_invocations,
}
use vermay_agent.Lifecycle.Local.{status_eq_iff}
use vermay_agent.Json.{Fields}
use vermay_agent.Outcomes.{LocalTaskRunResult, ErrorInfo}
use vermay_agent.Outcomes.Results.{record_local_result}
use vermay_agent.Outcomes.Settles.{HasEnded, late_result_cancels}
use vermay_agent.Outcomes.Steps.{transition_accepted, find_recorded, can_cancel}
use vermay_agent.Core.{cancel_now, request_cancellation, commit_cancellation, reason_payload}

abbrev is_prepared : String → ToolInvocationRecord → Bool
is_prepared task_id r = r.task_id == task_id && invocation_status_eq r.status prepared

unfoldable pub prepared_invocations : String → Store → List ToolInvocationRecord
prepared_invocations task_id s = select (is_prepared task_id) s.invocations

none_prepared :
    (task_id reason : String) (rows : List ToolInvocationRecord)
    → select (is_prepared task_id) (map (of_task task_id prepared (dropped reason)) rows) ≡ []
none_prepared task_id reason [] = refl
none_prepared task_id reason (r ∷ rows) = ground (arith, none_prepared task_id reason rows)

abbrev swept : String → Option String → Store → Store
swept task_id reason s = remove_queued task_id (
    remove_pending task_id
      (cancel_all_prepared task_id (or_text reason "task canceled before tool execution") s))

-- A cancelled Task that waits for nothing and may start no prepared tool call.
pub record IsCanceled (task_id : String) (u : TaskRecord) (after : Store) : Type 0 where
  pub stored : find_task task_id after ≡ some u
  pub status : u.status ≡ canceled
  pub no_pending : find_pending task_id after ≡ none
  pub no_queued : find_queued task_id after ≡ none
  pub no_prepared : prepared_invocations task_id after ≡ []

swept-IsCanceled :
    (t u : TaskRecord) (reason : Option String) (s : Store)
    → find_task t.task_id s ≡ some u
    → u.status ≡ canceled
    → IsCanceled t.task_id u (swept t.task_id reason s)
unfolding find_task find_pending find_queued remove_queued remove_pending cancel_all_prepared
    prepared_invocations
swept-IsCanceled t u reason s h done = record {
  stored = h;
  status = done;
  no_pending =
      ground (arith, lookup-remove pending_key t.task_id t.task_id s.pending, eq_refl t.task_id);
  no_queued =
      ground (arith, lookup-remove queued_key t.task_id t.task_id s.queued, eq_refl t.task_id);
  no_prepared =
      none_prepared t.task_id (or_text reason "task canceled before tool execution") s.invocations;
}

cancel_now_lem :
    (t : TaskRecord) (reason : Option String) (s : Store)
    → find_task t.task_id s ≡ some t
    → is_some t.assigned_agent_id ≡ false
    → validate_local_task_transition t.status canceled ≡ ok true
    → cancel_now t.task_id reason s ≡ (
      ok (record { task = changed canceled no_failure t; active_runtime_thread_id = none }),
      swept t.task_id reason (recorded canceled (some (reason_payload reason)) no_failure t s),
    )
unfolding cancel_now clear_pending_continuation clear_queued_task_execution
    cancel_prepared_tool_invocations
cancel_now_lem t reason s h local change = ground (
  arith,
  transition_accepted t.task_id canceled (some (reason_payload reason)) no_failure s t h local
      change,
)

can_cancel_waiting :
    (a : TaskStatus)
    → is_terminal a ≡ false
    → status_eq a running ≡ false
    → validate_local_task_transition a canceled ≡ ok true
unfolding validate_local_task_transition
can_cancel_waiting a live idle = ground arith

can_request : validate_local_task_transition running cancel_requested ≡ ok true
unfolding validate_local_task_transition
can_request = refl

abbrev asked_store : TaskRecord → Option String → Store → Store
asked_store t reason s = recorded cancel_requested (some (reason_payload reason)) no_failure t s

cancel_waiting :
    (t : TaskRecord) (reason : Option String) (active : Bool) (s : Store)
    → find_task t.task_id s ≡ some t
    → is_some t.assigned_agent_id ≡ false
    → is_terminal t.status ≡ false
    → status_eq t.status cancel_requested ≡ false
    → status_eq t.status running ≡ false
    → commit_cancellation t.task_id reason active s ≡ (
      ok (record { task = changed canceled no_failure t; active_runtime_thread_id = none }),
      swept t.task_id reason (recorded canceled (some (reason_payload reason)) no_failure t s),
    )
unfolding commit_cancellation get_task
cancel_waiting t reason active s h local live fresh idle = ground (
  arith,
  h,
  live,
  fresh,
  idle,
  cancel_now_lem t reason s h local (can_cancel_waiting t.status live idle),
)

ask_running :
    (t : TaskRecord) (reason : Option String) (s : Store)
    → find_task t.task_id s ≡ some t
    → is_some t.assigned_agent_id ≡ false
    → t.status ≡ running
    → transition_local_task t.task_id cancel_requested (some (reason_payload reason)) no_failure s
      ≡ (ok (changed cancel_requested no_failure t), asked_store t reason s)
ask_running t reason s h local runs =
    transition_accepted t.task_id cancel_requested (some (reason_payload reason)) no_failure s t h
      local (rw runs can_request)

cancel_idle_runner :
    (t : TaskRecord) (reason : Option String) (s : Store)
    → find_task t.task_id s ≡ some t
    → is_some t.assigned_agent_id ≡ false
    → t.status ≡ running
    → commit_cancellation t.task_id reason false s ≡ (
      ok (record {
        task = changed canceled no_failure (changed cancel_requested no_failure t);
        active_runtime_thread_id = none;
      }),
      swept t.task_id reason (
          recorded canceled
            (some (reason_payload reason))
            no_failure
            (changed cancel_requested no_failure t)
            (asked_store t reason s)),
    )
unfolding commit_cancellation request_cancellation get_task
cancel_idle_runner t reason s h local runs =
    let asked = changed cancel_requested no_failure t in
    ground (
      arith,
      h,
      runs,
      ask_running t reason s h local runs,
      cancel_now_lem asked reason (asked_store t reason s)
          (find_recorded t cancel_requested (some (reason_payload reason)) no_failure s h) local
          can_cancel,
    )

-- Cancelling a local Task that has not ended, for which no cancellation was requested and which no
-- active worker runs, always returns: the Task is cancelled and stored, and it keeps no pending
-- continuation, no queued command and no prepared invocation; no worker is signalled.
pub cancel_settles :
    (t : TaskRecord) (reason : Option String) (s : Store)
    → find_task t.task_id s ≡ some t
    → is_some t.assigned_agent_id ≡ false
    → is_terminal t.status ≡ false
    → status_eq t.status cancel_requested ≡ false
    → (u : TaskRecord) × (after : Store) × (commit_cancellation t.task_id reason false s
        ≡ (ok (record { task = u; active_runtime_thread_id = none }), after))
      × IsCanceled t.task_id u after
cancel_settles t reason s h local live fresh = elim (Bool-cases (status_eq t.status running)) [
  | inl runs ↦
      let is_running = (status_eq_iff t.status running).0 runs in
      let asked = changed cancel_requested no_failure t in
      let asked_found =
        find_recorded t cancel_requested (some (reason_payload reason)) no_failure s h in
      (
        changed canceled no_failure asked,
        _,
        cancel_idle_runner t reason s h local is_running,
        swept-IsCanceled t (changed canceled no_failure asked) reason
            (recorded canceled (some (reason_payload reason)) no_failure asked
              (asked_store t reason s))
            (find_recorded asked canceled (some (reason_payload reason)) no_failure
              (asked_store t reason s) asked_found)
            refl,
      )
  | inr idle ↦ (
    changed canceled no_failure t,
    _,
    cancel_waiting t reason false s h local live fresh idle,
    swept-IsCanceled t (changed canceled no_failure t) reason
        (recorded canceled (some (reason_payload reason)) no_failure t s)
        (find_recorded t canceled (some (reason_payload reason)) no_failure s h) refl,
  )
]

cancel_active :
    (t : TaskRecord) (reason : Option String) (s : Store)
    → find_task t.task_id s ≡ some t
    → is_some t.assigned_agent_id ≡ false
    → t.status ≡ running
    → commit_cancellation t.task_id reason true s ≡ (
      ok (record {
        task = changed cancel_requested no_failure t;
        active_runtime_thread_id = some t.runtime_thread_id;
      }),
      asked_store t reason s,
    )
unfolding commit_cancellation request_cancellation get_task
cancel_active t reason s h local runs = ground (arith, h, runs, ask_running t reason s h local runs)

-- Cancelling a local Task that an active worker runs signals the worker's thread and leaves the Task
-- with its cancellation requested; whatever result the worker then records, recording it returns
-- and the Task is cancelled with nothing of it left to run.
pub commit_cancellation-record_local_result :
    (t : TaskRecord) (reason : Option String) (result : LocalTaskRunResult)
    (metadata : Option Fields) (id : String) (info : ErrorInfo) (s : Store)
    → find_task t.task_id s ≡ some t
    → is_some t.assigned_agent_id ≡ false
    → t.status ≡ running
    → (asked u : TaskRecord) × (mid after : Store) × (commit_cancellation t.task_id reason true s
        ≡ (ok (record { task = asked; active_runtime_thread_id = some t.runtime_thread_id }), mid))
      × (asked.status ≡ cancel_requested)
      × (record_local_result t.task_id result metadata id info mid ≡ (ok u, after))
      × HasEnded asked canceled u after
commit_cancellation-record_local_result t reason result metadata id info s h local runs =
    let asked = changed cancel_requested no_failure t in
    let asked_found =
      find_recorded t cancel_requested (some (reason_payload reason)) no_failure s h in
    let (u, after, done, ended) =
      late_result_cancels asked result metadata id info (asked_store t reason s) asked_found local
        refl in
    (
      asked,
      u,
      asked_store t reason s,
      after,
      cancel_active t reason s h local runs,
      refl,
      done,
      ended,
    )
