-- ===== src/Core.antt =====
-- vermay/main_agent/core.py (`MainAgentCore`): the commands that cancel a Task and that reconcile the
-- store when the process starts. What the local execution adapter knows, whether a worker is
-- active and what `wake` does, is an argument.
pub mod Cancels
pub mod Continuations
pub mod Resumes
pub mod Inputs
pub mod Wakes
pub mod Recovery
pub mod Reconciles
use vermay_agent.Prelude.{
  String, ◌==◌, Bool, true, false, not, ◌||◌, Option, none, some, List, [], ◌∷◌, ◌++◌, select,
  is_some, truthy?, or_text, if◌then◌else◌,
}
use vermay_agent.Exec.{
  Result, ok, err, Exec, pure, require, transaction, raise_if, gets, ◌>>=◌, ◌>>◌, unknown_task,
  task_terminal,
}
use vermay_agent.Json.{Fields, end, entry, str}
use vermay_agent.Lifecycle.{
  TaskStatus, queued, running, cancel_requested, canceled, is_terminal, status_eq,
}
use vermay_agent.Store.{Store, TaskRecord}
use vermay_agent.Store.Tasks.{get_task, transition_local_task, no_failure}
use vermay_agent.Store.Queue.{
  QueuedTaskExecutionRecord, decode_queued, find_queued, clear_pending_continuation,
  clear_queued_task_execution,
}
use vermay_agent.Store.Invocations.{cancel_prepared_tool_invocations}
use vermay_agent.Outcomes.{record_runtime_recovery_failure}

-- `_CommittedCancellation`
pub record CommittedCancellation : Type 0 where
  pub task : TaskRecord
  pub active_runtime_thread_id : Option String

-- `{"reason": reason} if reason else {}`
abbrev pub reason_payload : Option String → Fields
reason_payload reason = if truthy? reason then entry "reason" (str (or_text reason "")) else end

unfoldable pub cancel_now : String → Option String → Exec Store CommittedCancellation
cancel_now task_id reason = do
  ended ← transition_local_task task_id canceled (some (reason_payload reason)) no_failure
  cancel_prepared_tool_invocations task_id (or_text reason "task canceled before tool execution")
  clear_pending_continuation task_id
  clear_queued_task_execution task_id
  pure (record { task = ended; active_runtime_thread_id = none })

unfoldable pub request_cancellation :
    String → Option String → Bool → Exec Store CommittedCancellation
request_cancellation task_id reason active = do
  asked ← transition_local_task task_id cancel_requested (some (reason_payload reason)) no_failure
  if active
      then pure (record { task = asked; active_runtime_thread_id = some asked.runtime_thread_id })
      else cancel_now task_id reason

-- `commit_cancellation` inside `_cancel_task`, in its transaction
unfoldable pub commit_cancellation :
    String → Option String → Bool → Exec Store CommittedCancellation
commit_cancellation task_id reason active = transaction (do
  found ← get_task task_id
  task ← require found (unknown_task task_id)
  raise_if (is_terminal task.status) (task_terminal task_id)
  if status_eq task.status cancel_requested
      then pure (record {
        task = task;
        active_runtime_thread_id = if active then some task.runtime_thread_id else none;
      })
      else (if status_eq task.status running
          then request_cancellation task_id reason active
          else cancel_now task_id reason))

-- What the adapter's `wake` does for a Task at startup: it submits a run, it finds one submitted
-- already, or it raises.
pub data Wake : Type 0 where
  submitted already_live raised : Wake

-- The adapter as startup sees it: absent or unable to recover, or with its `wake`.
pub data Adapter : Type 0 where
  no_recovery : Adapter
  recovers : (String → Wake) → Adapter

-- `list_local_tasks_by_statuses`; the rows stand in the order of their creation.
abbrev pub is_local : (TaskStatus → Bool) → TaskRecord → Bool
is_local wanted t = if is_some t.assigned_agent_id then false else wanted t.status

unfoldable pub list_local_tasks_by_statuses : (TaskStatus → Bool) → Store → List TaskRecord
list_local_tasks_by_statuses wanted s = select (is_local wanted) s.tasks

-- `{TaskStatus.RUNNING, TaskStatus.CANCEL_REQUESTED}`
abbrev pub is_interrupted : TaskStatus → Bool
is_interrupted running = true
is_interrupted cancel_requested = true
is_interrupted _ = false

abbrev pub is_queued : TaskStatus → Bool
is_queued queued = true
is_queued _ = false

-- What reconciliation does with a queued Task: the failure that it records, or none.
pub data Verdict : Type 0 where
  schedule retain : Verdict
  fail : String → String → Verdict

abbrev pub wake_verdict : Wake → Verdict
wake_verdict submitted = schedule
wake_verdict already_live = retain
wake_verdict raised =
    fail "runtime_recovery_submission_failed" "Unable to submit the queued local task for recovery."

unfoldable pub queued_verdict :
    Adapter → TaskRecord → Result (Option QueuedTaskExecutionRecord) → Verdict
queued_verdict adapter task (err e) =
    fail "runtime_recovery_invalid_command"
      "Queued local task has an invalid persisted execution command."
queued_verdict adapter task (ok none) =
    fail "runtime_recovery_command_missing"
      "Queued local task has no recoverable execution command."
queued_verdict adapter task (ok (some command)) =
    if not (command.runtime_thread_id == task.runtime_thread_id)
    then fail "runtime_recovery_thread_mismatch"
        "Queued local task execution does not match its runtime thread."
    else elim adapter [
      | no_recovery ↦
          fail "runtime_recovery_unavailable"
            "No local worker is available to recover the queued task."
      | recovers wake ↦ wake_verdict (wake task.task_id)
    ]

-- `StartupReconciliationOutcome` without the messages.
pub record StartupReconciliationOutcome : Type 0 where
  pub scheduled_task_ids : List String
  pub failed_task_ids : List String
  pub retained_task_ids : List String

abbrev pub nothing_reconciled : StartupReconciliationOutcome
nothing_reconciled = record {
  scheduled_task_ids = [];
  failed_task_ids = [];
  retained_task_ids = [];
}

-- The loop over the interrupted Tasks.
unfoldable pub fail_interrupted :
    List TaskRecord → StartupReconciliationOutcome → Exec Store StartupReconciliationOutcome
fail_interrupted [] out = pure out
fail_interrupted (t ∷ tasks) out = do
  record_runtime_recovery_failure t.task_id "runtime_restart_interrupted"
      "Local task execution was interrupted by a runtime restart."
  fail_interrupted tasks (record out { failed_task_ids = out.failed_task_ids ++ t.task_id ∷ [] })

unfoldable pub apply_verdict :
    TaskRecord → StartupReconciliationOutcome → Verdict → Exec Store StartupReconciliationOutcome
apply_verdict t out schedule =
    pure (record out { scheduled_task_ids = out.scheduled_task_ids ++ t.task_id ∷ [] })
apply_verdict t out retain =
    pure (record out { retained_task_ids = out.retained_task_ids ++ t.task_id ∷ [] })
apply_verdict t out (fail code message) = do
  record_runtime_recovery_failure t.task_id code message
  pure (record out { failed_task_ids = out.failed_task_ids ++ t.task_id ∷ [] })

-- The loop over the queued Tasks.
unfoldable pub recover_queued :
    Adapter
    → List TaskRecord
    → StartupReconciliationOutcome
    → Exec Store StartupReconciliationOutcome
recover_queued adapter [] out = pure out
recover_queued adapter (t ∷ tasks) out = do
  command ← gets (λ s. decode_queued (find_queued t.task_id s))
  next ← apply_verdict t out (queued_verdict adapter t command)
  recover_queued adapter tasks next

-- `_reconcile_startup` behind the message ingresses
unfoldable pub reconcile_startup : Adapter → Exec Store StartupReconciliationOutcome
reconcile_startup adapter = do
  interrupted ← gets (list_local_tasks_by_statuses is_interrupted)
  failed ← fail_interrupted interrupted nothing_reconciled
  waiting ← gets (list_local_tasks_by_statuses is_queued)
  recover_queued adapter waiting failed
