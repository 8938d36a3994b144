-- ===== src/Outcomes/Steps.antt =====
-- What closing a Task's work leaves, and how a failure or a cancellation runs.
use vermay_agent.Prelude.{
  ◌+◌, String, ◌==◌, eq_refl, ◌≡◌, refl, Bool, true, false, ◌&&◌, not, Option, none, some, List, [],
  ◌∷◌, map, select, is_some, arith,
}
use vermay_agent.Prelude.Table.{lookup-remove}
use vermay_agent.Exec.{ok}
use vermay_agent.Json.{Fields}
use vermay_agent.Lifecycle.{
  TaskStatus, failed, canceled, cancel_requested, is_terminal, validate_local_task_transition,
}
use vermay_agent.Store.{
  Store, TaskRecord, ToolInvocationRecord, prepared, uncertain, pending_key, queued_key,
}
use vermay_agent.Store as Tables
use vermay_agent.Store.Tasks.{
  find_task, get_task, transition_local_task, no_failure, Failure, update_task, or_empty,
}
use vermay_agent.Store.Tasks.Transition.{
  changed, recorded, transition_local_task_lem, find_task-update_task, find_task-insert_event,
  event_name,
}
use vermay_agent.Store.Queue.{
  find_pending, find_queued, remove_pending, remove_queued, clear_pending_continuation,
  clear_queued_task_execution,
}
use vermay_agent.Store.Invocations.{
  is_settled, of_task, ended, dropped, Ending, cancel_all_prepared, all_running_uncertain,
  cancel_prepared_tool_invocations, mark_running_tool_invocations_uncertain,
}
use vermay_agent.Outcomes.{
  ErrorInfo, close_unresolved_execution, record_cancellation, canceled_payload, fail_task,
}

-- The invocations of a Task that are prepared or running.
abbrev pub is_open : String → ToolInvocationRecord → Bool
is_open task_id r = r.task_id == task_id && not (is_settled r.status)

unfoldable pub open_invocations : String → Store → List ToolInvocationRecord
open_invocations task_id s = select (is_open task_id) s.invocations

abbrev pub closed_store : String → ErrorInfo → String → Store → Store
closed_store task_id info prepared_reason s =
    let e : Ending = record {
      code = info.code;
      message = info.message;
      retryable = info.retryable;
    } in
    remove_queued task_id (
      remove_pending task_id
        (cancel_all_prepared task_id prepared_reason (all_running_uncertain task_id e s)))

pub close_lem :
    (task_id : String) (info : ErrorInfo) (reason : String) (s : Store)
    → close_unresolved_execution task_id info reason s ≡ (ok tt, closed_store task_id info reason s)
unfolding close_unresolved_execution clear_pending_continuation clear_queued_task_execution
    cancel_prepared_tool_invocations mark_running_tool_invocations_uncertain
close_lem task_id info reason s = refl

none_open :
    (task_id reason : String) (e : Ending) (rows : List ToolInvocationRecord)
    → select (is_open task_id) (
        map
          (of_task task_id prepared (dropped reason))
          (map (of_task task_id Tables.running (ended uncertain e)) rows))
      ≡ []
none_open task_id reason e [] = refl
none_open task_id reason e (r ∷ rows) = ground (arith, none_open task_id reason e rows)

-- A Task with nothing left to run.
pub record IsClosed (task_id : String) (s : Store) : Type 0 where
  pub no_pending : find_pending task_id s ≡ none
  pub no_queued : find_queued task_id s ≡ none
  pub no_open : open_invocations task_id s ≡ []

pub closed_store-IsClosed :
    (task_id : String) (info : ErrorInfo) (reason : String) (s : Store)
    → IsClosed task_id (closed_store task_id info reason s)
unfolding find_pending find_queued remove_queued remove_pending cancel_all_prepared
    all_running_uncertain open_invocations
closed_store-IsClosed task_id info reason s = record {
  no_pending = ground (arith, lookup-remove pending_key task_id task_id s.pending, eq_refl task_id);
  no_queued = ground (arith, lookup-remove queued_key task_id task_id s.queued, eq_refl task_id);
  no_open =
      none_open task_id reason
        (record { code = info.code; message = info.message; retryable = info.retryable })
        s.invocations;
}

pub find_task-closed_store :
    (j task_id : String) (info : ErrorInfo) (reason : String) (s : Store)
    → find_task j (closed_store task_id info reason s) ≡ find_task j s
unfolding find_task remove_queued remove_pending cancel_all_prepared all_running_uncertain
find_task-closed_store j task_id info reason s = refl

pub find_recorded :
    (t : TaskRecord) (target : TaskStatus) (payload : Option Fields) (failure : Failure) (s : Store)
    → find_task t.task_id s ≡ some t
    → find_task t.task_id (recorded target payload failure t s) ≡ some (changed target failure t)
find_recorded t target payload failure s h =
    rw
      (
        find_task-insert_event t.task_id t.task_id (event_name target) (some target)
            (t.lifecycle_revision + 1) (or_empty payload)
            (update_task t.task_id (changed target failure) s),
        find_task-update_task t.task_id t.task_id (changed target failure) s (λ u. refl),
        eq_refl,
        h,
      )
      refl

-- Every status that is not terminal may be followed by `failed`, and `cancel_requested` by
-- `canceled`.
pub can_fail :
    (a : TaskStatus) → is_terminal a ≡ false → validate_local_task_transition a failed ≡ ok true
unfolding validate_local_task_transition
can_fail a h = ground arith

pub can_cancel : validate_local_task_transition cancel_requested canceled ≡ ok true
unfolding validate_local_task_transition
can_cancel = refl

pub transition_accepted :
    (task_id : String) (target : TaskStatus) (payload : Option Fields) (failure : Failure)
    (s : Store) (t : TaskRecord)
    → find_task task_id s ≡ some t
    → is_some t.assigned_agent_id ≡ false
    → validate_local_task_transition t.status target ≡ ok true
    → transition_local_task task_id target payload failure s
      ≡ (ok (changed target failure t), recorded target payload failure t s)
transition_accepted task_id target payload failure s t h local change =
    ground (arith, h, local, change, transition_local_task_lem task_id target payload failure s)

abbrev pub failing : ErrorInfo → Failure
failing info = record {
  code = some info.code;
  message = some info.message;
  retryable = info.retryable;
}

pub fail_task_lem :
    (task_id : String) (payload : Fields) (info closing : ErrorInfo) (reason : String) (s : Store)
    (t : TaskRecord)
    → find_task task_id s ≡ some t
    → is_some t.assigned_agent_id ≡ false
    → is_terminal t.status ≡ false
    → fail_task task_id payload info closing reason s ≡ (
      ok (changed failed (failing info) t),
      closed_store task_id closing reason (recorded failed (some payload) (failing info) t s),
    )
unfolding fail_task
fail_task_lem task_id payload info closing reason s t h local live = ground (
  arith,
  transition_accepted task_id failed (some payload) (failing info) s t h local
      (can_fail t.status live),
  close_lem task_id closing reason (recorded failed (some payload) (failing info) t s),
)

abbrev pub cancel_info : ErrorInfo
cancel_info = record {
  code = "task_canceled_during_tool_execution";
  message =
      "Task cancellation reached a boundary while a side-effecting tool outcome was unresolved.";
  retryable = false;
}

abbrev pub canceled_store : String → TaskRecord → Store → Store
canceled_store task_id t s =
    closed_store task_id cancel_info "task canceled before prepared tool execution"
      (recorded canceled (some canceled_payload) no_failure t s)

pub record_cancellation_lem :
    (task_id : String) (s : Store) (t : TaskRecord)
    → find_task task_id s ≡ some t
    → is_some t.assigned_agent_id ≡ false
    → is_terminal t.status ≡ false
    → validate_local_task_transition t.status canceled ≡ ok true
    → record_cancellation task_id s
      ≡ (ok (changed canceled no_failure t), canceled_store task_id t s)
unfolding record_cancellation get_task
record_cancellation_lem task_id s t h local live change = ground (
  arith,
  h,
  live,
  transition_accepted task_id canceled (some canceled_payload) no_failure s t h local change,
  close_lem task_id cancel_info "task canceled before prepared tool execution"
      (recorded canceled (some canceled_payload) no_failure t s),
)
