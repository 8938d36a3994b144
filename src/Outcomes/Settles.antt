-- ===== src/Outcomes/Settles.antt =====
-- Where a Task stands after a recorder has run.
use vermay_agent.Prelude.{
  ◌+◌, ◌∙◌, String, ◌≡◌, refl, true, false, Option, some, is_some, if◌then◌else◌, arith, Bool-cases,
  Option-cases, or_text, inl, inr,
}
use vermay_agent.Exec.{ok, err, Error, Exec}
use vermay_agent.Json.{Fields, field, entry, str, bool}
use vermay_agent.Lifecycle.{TaskStatus, failed, canceled, cancel_requested, is_terminal, status_eq}
use vermay_agent.Lifecycle.Local.{status_eq_iff}
use vermay_agent.Store.{Store, TaskRecord}
use vermay_agent.Store.Tasks.{find_task, get_task, no_failure, Failure}
use vermay_agent.Store.Tasks.Transition.{changed, recorded}
use vermay_agent.Outcomes.{
  LocalTaskRunResult, ErrorInfo, record_cancellation, canceled_payload, record_failure,
  failure_payload, record_runtime_recovery_failure, local_process_status, supported_kind,
  continuation_input_request,
}
use vermay_agent.Outcomes.Results.{
  while_open, record_local_result, record_accepted_result, record_completed_result,
  record_interrupted_result, record_failed_result, complete_task, interrupt_task, fail_with_result,
}
use vermay_agent.Outcomes.Steps.{
  IsClosed, closed_store, closed_store-IsClosed, find_task-closed_store, find_recorded,
  fail_task_lem, record_cancellation_lem, failing, cancel_info, canceled_store, can_cancel,
}

-- A store in which the Task has ended, one revision later, with nothing of it left to run.
pub record HasEnded (t : TaskRecord) (target : TaskStatus) (u : TaskRecord) (after : Store)
    : Type 0 where
  pub stored : find_task t.task_id after ≡ some u
  pub same_task : u.task_id ≡ t.task_id
  pub status : u.status ≡ target
  pub revision : u.lifecycle_revision ≡ t.lifecycle_revision + 1
  pub closed : IsClosed t.task_id after

ended_as :
    (t : TaskRecord) (target : TaskStatus) (payload : Option Fields) (failure : Failure)
    (info : ErrorInfo) (reason : String) (s : Store)
    → find_task t.task_id s ≡ some t
    → HasEnded t target
        (changed target failure t)
        (closed_store t.task_id info reason (recorded target payload failure t s))
ended_as t target payload failure info reason s h = record {
  stored =
      find_task-closed_store t.task_id t.task_id info reason (recorded target payload failure t s)
      ∙ find_recorded t target payload failure s h;
  same_task = refl;
  status = refl;
  revision = refl;
  closed = closed_store-IsClosed t.task_id info reason (recorded target payload failure t s);
}

-- The results of the recorders on a local Task that has not ended.
abbrev pub failed_store : TaskRecord → Fields → ErrorInfo → String → Store → Store
failed_store t payload info reason s =
    closed_store t.task_id info reason (recorded failed (some payload) (failing info) t s)

failure_of_live :
    (t : TaskRecord) (info : ErrorInfo) (s : Store)
    → find_task t.task_id s ≡ some t
    → is_some t.assigned_agent_id ≡ false
    → is_terminal t.status ≡ false
    → status_eq t.status cancel_requested ≡ false
    → record_failure t.task_id info s ≡ (
      ok (changed failed (failing info) t),
      failed_store t (failure_payload info) info "task failed before prepared tool execution" s,
    )
unfolding record_failure get_task
failure_of_live t info s h local live other = ground (
  arith,
  h,
  live,
  other,
  fail_task_lem t.task_id (failure_payload info) info info
      "task failed before prepared tool execution" s t h local live,
)

cancellation_of_requested :
    (t : TaskRecord) (s : Store)
    → find_task t.task_id s ≡ some t
    → is_some t.assigned_agent_id ≡ false
    → t.status ≡ cancel_requested
    → record_cancellation t.task_id s
      ≡ (ok (changed canceled no_failure t), canceled_store t.task_id t s)
cancellation_of_requested t s h local asked =
    record_cancellation_lem t.task_id s t h local (ground (arith, asked))
      (ground (arith, asked, can_cancel))

failure_of_requested :
    (t : TaskRecord) (info : ErrorInfo) (s : Store)
    → find_task t.task_id s ≡ some t
    → is_some t.assigned_agent_id ≡ false
    → t.status ≡ cancel_requested
    → record_failure t.task_id info s
      ≡ (ok (changed canceled no_failure t), canceled_store t.task_id t s)
unfolding record_failure get_task
failure_of_requested t info s h local asked =
    ground (arith, h, asked, cancellation_of_requested t s h local asked)

-- Recording a failure of a local Task that has not ended always returns: the Task is cancelled if its
-- cancellation was requested and failed otherwise, one revision later, it is the one stored, and
-- it keeps no pending continuation, no queued command and no invocation that is prepared or running.
pub record_failure_settles :
    (t : TaskRecord) (info : ErrorInfo) (s : Store)
    → find_task t.task_id s ≡ some t
    → is_some t.assigned_agent_id ≡ false
    → is_terminal t.status ≡ false
    → (u : TaskRecord) × (after : Store) × (record_failure t.task_id info s ≡ (ok u, after))
      × HasEnded t (if status_eq t.status cancel_requested then canceled else failed) u after
record_failure_settles t info s h local live =
    elim (Bool-cases (status_eq t.status cancel_requested)) [
      | inl asked ↦ (
        changed canceled no_failure t,
        canceled_store t.task_id t s,
        failure_of_requested t info s h local ((status_eq_iff t.status cancel_requested).0 asked),
        rw asked (
            ended_as t canceled (some canceled_payload) no_failure cancel_info
              "task canceled before prepared tool execution" s h),
      )
      | inr other ↦ (
        changed failed (failing info) t,
        failed_store t (failure_payload info) info "task failed before prepared tool execution" s,
        failure_of_live t info s h local live other,
        rw other (
            ended_as t failed (some (failure_payload info)) (failing info) info
              "task failed before prepared tool execution" s h),
      )
    ]

abbrev pub recovery_info : String → String → ErrorInfo
recovery_info code message = record { code = code; message = message; retryable = true }

abbrev pub recovery_payload : String → String → Fields
recovery_payload code message =
    field "error_code" (str code)
      (field "error_message" (str message) (entry "retryable" (bool true)))

pub recovery_of_live :
    (t : TaskRecord) (code message : String) (s : Store)
    → find_task t.task_id s ≡ some t
    → is_some t.assigned_agent_id ≡ false
    → is_terminal t.status ≡ false
    → record_runtime_recovery_failure t.task_id code message s ≡ (
      ok (changed failed (failing (recovery_info code message)) t),
      failed_store t
          (recovery_payload code message)
          (recovery_info code message)
          "runtime recovery ended before prepared tool execution"
          s,
    )
unfolding record_runtime_recovery_failure get_task
recovery_of_live t code message s h local live = ground (
  arith,
  h,
  live,
  fail_task_lem t.task_id (recovery_payload code message) (recovery_info code message)
      (recovery_info code message) "runtime recovery ended before prepared tool execution" s t h
      local live,
)

-- Recording that a restart interrupted a local Task that has not ended always returns and fails the
-- Task, as a retryable failure, with nothing of it left to run.
pub recovery_settles :
    (t : TaskRecord) (code message : String) (s : Store)
    → find_task t.task_id s ≡ some t
    → is_some t.assigned_agent_id ≡ false
    → is_terminal t.status ≡ false
    → (u : TaskRecord) × (after : Store) × (record_runtime_recovery_failure t.task_id code message s
        ≡ (ok u, after))
      × (u.error_retryable ≡ true)
      × HasEnded t failed u after
recovery_settles t code message s h local live = (
  changed failed (failing (recovery_info code message)) t,
  failed_store t (recovery_payload code message) (recovery_info code message)
      "runtime recovery ended before prepared tool execution" s,
  recovery_of_live t code message s h local live,
  refl,
  ended_as t failed (some (recovery_payload code message)) (failing (recovery_info code message))
      (recovery_info code message) "runtime recovery ended before prepared tool execution" s h,
)

result_of_requested :
    (t : TaskRecord) (result : LocalTaskRunResult) (metadata : Option Fields) (id : String)
    (unsupported : ErrorInfo) (s : Store)
    → find_task t.task_id s ≡ some t
    → is_some t.assigned_agent_id ≡ false
    → t.status ≡ cancel_requested
    → record_local_result t.task_id result metadata id unsupported s
      ≡ (ok (changed canceled no_failure t), canceled_store t.task_id t s)
unfolding record_local_result get_task
result_of_requested t result metadata id unsupported s h local asked =
    ground (arith, h, asked, cancellation_of_requested t s h local asked)

-- Whatever result a run brings back after its cancellation was requested, the Task is cancelled: the
-- recorder always returns, and nothing of the Task is left to run.
pub late_result_cancels :
    (t : TaskRecord) (result : LocalTaskRunResult) (metadata : Option Fields) (id : String)
    (unsupported : ErrorInfo) (s : Store)
    → find_task t.task_id s ≡ some t
    → is_some t.assigned_agent_id ≡ false
    → t.status ≡ cancel_requested
    → (u : TaskRecord) × (after : Store) × (record_local_result t.task_id result metadata id
          unsupported s
        ≡ (ok u, after))
      × HasEnded t canceled u after
late_result_cancels t result metadata id unsupported s h local asked = (
  changed canceled no_failure t,
  canceled_store t.task_id t s,
  result_of_requested t result metadata id unsupported s h local asked,
  ended_as t canceled (some canceled_payload) no_failure cancel_info
      "task canceled before prepared tool execution" s h,
)

while_open_kept :
    (task_id : String) (body : TaskRecord → Exec Store TaskRecord) (s : Store) (e : Error)
    → (while_open task_id body s).0 ≡ err e
    → (while_open task_id body s).1 ≡ s
unfolding while_open
while_open_kept task_id body s e h = ground (arith, h)

failure_kept :
    (task_id : String) (info : ErrorInfo) (s : Store) (e : Error)
    → (record_failure task_id info s).0 ≡ err e
    → (record_failure task_id info s).1 ≡ s
unfolding record_failure
failure_kept task_id info s e h = ground (arith, h)

cancellation_kept :
    (task_id : String) (s : Store) (e : Error)
    → (record_cancellation task_id s).0 ≡ err e
    → (record_cancellation task_id s).1 ≡ s
unfolding record_cancellation
cancellation_kept task_id s e h = ground (arith, h)

accepted_kept :
    (task_id : String) (result : LocalTaskRunResult) (metadata : Option Fields) (id : String)
    (info : ErrorInfo) (t : TaskRecord) (status : TaskStatus) (s : Store) (e : Error)
    → (record_accepted_result task_id result metadata id info t status s).0 ≡ err e
    → (record_accepted_result task_id result metadata id info t status s).1 ≡ s
unfolding record_accepted_result record_completed_result record_interrupted_result
    record_failed_result
accepted_kept task_id result metadata id info t status s e h =
    elim (Option-cases (continuation_input_request result)) [
      | inl none_given ↦ ground (
        arith,
        h,
        none_given,
        failure_kept task_id info s e,
        while_open_kept task_id (complete_task task_id result metadata id) s e,
        while_open_kept task_id (fail_with_result task_id result status) s e,
      )
      | inr (request, given) ↦ ground (
        arith,
        h,
        given,
        while_open_kept task_id (complete_task task_id result metadata id) s e,
        while_open_kept task_id (fail_with_result task_id result status) s e,
        while_open_kept task_id
            (interrupt_task task_id result status request (or_text (supported_kind request) "")) s
            e,
      )
    ]

-- When recording a result raises, wherever in its many writes, the store is as it was before.
pub record_local_result_atomic :
    (task_id : String) (result : LocalTaskRunResult) (metadata : Option Fields) (id : String)
    (info : ErrorInfo) (s : Store) (e : Error)
    → (record_local_result task_id result metadata id info s).0 ≡ err e
    → (record_local_result task_id result metadata id info s).1 ≡ s
unfolding record_local_result get_task
record_local_result_atomic task_id result metadata id info s e h =
    elim (Option-cases (find_task task_id s)) [
      | inl missing ↦ ground (arith, h, missing)
      | inr (t, found) ↦ ground (
        arith,
        h,
        found,
        cancellation_kept task_id s e,
        accepted_kept task_id result metadata id info t (local_process_status result) s e,
      )
    ]
