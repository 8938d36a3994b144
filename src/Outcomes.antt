-- ===== src/Outcomes.antt =====
-- vermay/main_agent/task_outcomes.py (`TaskOutcomeRecorder`) with the projections of
-- vermay/main_agent/task_result_projection.py: what a finished worker slice writes to the store.
-- The id of a new message (`uuid4`) is an argument, and so is what vermay/errors.py reads off an
-- exception.
pub mod Results
pub mod Steps
pub mod Settles
pub mod Endings
pub mod Completes
use Prim.Native.String.{◌++◌ as text_append}
use vermay_agent.Prelude.{
  String, ◌==◌, Bool, true, false, ◌&&◌, ◌||◌, not, Option, none, some, List, [], ◌∷◌, select,
  is_some, truthy?, or_text, opt_eq, length, show_nat, strip, truthy, if◌then◌else◌,
}
use vermay_agent.Exec.{
  Exec, pure, raise, gets, require, transaction, raise_if, ◌>>=◌, ◌>>◌, unknown_task,
}
use vermay_agent.Json.{
  Json, null, bool, num, str, arr, obj, Fields, end, field, get, items, is_object, entry, is_empty,
  merge, json_truthy,
}
use vermay_agent.Lifecycle.{
  TaskStatus, running, input_required, auth_required, completed, canceled, failed, cancel_requested,
  status_eq, is_terminal,
}
use vermay_agent.Store.{Store, MessageRole, agent, TaskRecord}
use vermay_agent.Store.Tasks.{
  get_task, append_task_event, transition_local_task, no_failure, or_empty,
}
use vermay_agent.Store.Messages.{
  find_artifact, append_message, upsert_artifact, set_task_output_message,
}
use vermay_agent.Store.Queue.{
  set_pending_continuation, clear_pending_continuation, clear_queued_task_execution,
}
use vermay_agent.Store.Invocations.{
  mark_running_tool_invocations_uncertain, cancel_prepared_tool_invocations,
}

-- `LocalTaskRunResult` of vermay/main_agent/task_runner.py
pub record LocalTaskRunResult : Type 0 where
  pub status : TaskStatus
  pub parts : List Json
  pub artifact_parts : List Json
  pub error_code : Option String
  pub error_message : Option String
  pub error_retryable : Bool
  pub input_request : Option Fields
  pub observations : List Json
  pub execution : Fields

-- `.get("kind")`, with the two kinds that are supported
unfoldable pub supported_kind : Fields → Option String
supported_kind request = elim (get "kind" request) [
  | some (str kind) ↦
      if kind == "approval_required" || kind == "user_input_required" then some kind else none
  | other ↦ none
]

unfoldable pub continuation_input_request : LocalTaskRunResult → Option Fields
continuation_input_request result = elim result.input_request [
  | none ↦ none
  | some request ↦ if is_some (supported_kind request) then some request else none
]

unfoldable pub local_process_status : LocalTaskRunResult → TaskStatus
local_process_status result =
    if not (status_eq result.status input_required || status_eq result.status auth_required)
    then result.status
    else elim (continuation_input_request result) [
      | none ↦ result.status
      | some request ↦
          if opt_eq (supported_kind request) (some "approval_required")
          then auth_required
          else input_required
    ]

-- `{name: value} if value else {}`
abbrev pub text_field : String → Option String → Fields
text_field name value = if truthy? value then entry name (str (or_text value "")) else end

abbrev pub fields_field : String → Fields → Fields
fields_field name value = if is_empty value then end else entry name (obj value)

-- `{name: value} if value is not None else {}`
abbrev pub given_field : String → Option String → Fields
given_field name none = end
given_field name (some value) = entry name (str value)

unfoldable pub task_result_lifecycle_payload : LocalTaskRunResult → Option String → Fields
task_result_lifecycle_payload result artifact_id =
    merge (fields_field "execution" result.execution)
      (given_field "observation_artifact_id" artifact_id)

unfoldable pub task_result_execution_metadata : LocalTaskRunResult → Option String → Fields
task_result_execution_metadata result artifact_id =
    merge (fields_field "execution" result.execution)
      (given_field "observationArtifactId" artifact_id)

unfoldable pub task_result_error_payload : LocalTaskRunResult → Option String → Fields
task_result_error_payload result artifact_id =
    merge
      (merge
        (merge (text_field "error_code" result.error_code)
          (text_field "error_message" result.error_message))
        (fields_field "input_request" (or_empty result.input_request)))
      (task_result_lifecycle_payload result artifact_id)

unfoldable pub task_result_observations : LocalTaskRunResult → List Json
task_result_observations result = select is_object result.observations

-- What `error_info_from_exception` reads off an exception.
pub record ErrorInfo : Type 0 where
  pub code : String
  pub message : String
  pub retryable : Bool

-- `_close_unresolved_execution`
unfoldable pub close_unresolved_execution : String → ErrorInfo → String → Exec Store Unit
close_unresolved_execution task_id info prepared_reason = do
  mark_running_tool_invocations_uncertain task_id
      (record { code = info.code; message = info.message; retryable = info.retryable })
  cancel_prepared_tool_invocations task_id prepared_reason
  clear_pending_continuation task_id
  clear_queued_task_execution task_id

abbrev pub canceled_payload : Fields
canceled_payload = entry "execution" (
    obj (
      field "stop_reason" (str "canceled")
        (entry "stop_detail" (obj (entry "source" (str "control_plane_cancellation"))))))

unfoldable pub record_cancellation : String → Exec Store TaskRecord
record_cancellation task_id = transaction (do
  found ← get_task task_id
  task ← require found (unknown_task task_id)
  if is_terminal task.status then pure task else (do
    ended ← transition_local_task task_id canceled (some canceled_payload) no_failure
    close_unresolved_execution task_id
        (record {
          code = "task_canceled_during_tool_execution";
          message =
              "Task cancellation reached a boundary while a side-effecting tool outcome was unresolved.";
          retryable = false;
        })
        "task canceled before prepared tool execution"
    pure ended))

abbrev pub failure_payload : ErrorInfo → Fields
failure_payload info = field "error_code" (str info.code) (
    field "error_message" (str info.message) (
      field "retryable" (bool info.retryable) (
        entry "execution" (
          obj (
            field "stop_reason" (str "environment_failure") (
              field "stop_detail" (obj (entry "error_code" (str info.code))) (
                entry "residual_risks" (
                  arr (
                    items (
                      obj (
                        field "category" (str "environment_failure") (
                          field "summary" (str info.message)
                            (entry "retryable" (bool info.retryable))))
                      ∷ []))))))))))

-- A local Task moved to `failed`, and its open work closed.
unfoldable pub fail_task : String → Fields → ErrorInfo → ErrorInfo → String → Exec Store TaskRecord
fail_task task_id payload info closing prepared_reason = do
  ended ←
      transition_local_task task_id failed (some payload)
        (record { code = some info.code; message = some info.message; retryable = info.retryable })
  close_unresolved_execution task_id closing prepared_reason
  pure ended

unfoldable pub record_failure : String → ErrorInfo → Exec Store TaskRecord
record_failure task_id info = transaction (do
  found ← get_task task_id
  task ← require found (unknown_task task_id)
  if is_terminal task.status
      then pure task
      else (if status_eq task.status cancel_requested
          then record_cancellation task_id
          else fail_task task_id (failure_payload info) info info
              "task failed before prepared tool execution"))

unfoldable pub record_runtime_recovery_failure : String → String → String → Exec Store TaskRecord
record_runtime_recovery_failure task_id error_code error_message = transaction (do
  let info : ErrorInfo = record { code = error_code; message = error_message; retryable = true }
  found ← get_task task_id
  task ← require found (unknown_task task_id)
  if is_terminal task.status
      then pure task
      else fail_task task_id
          (field "error_code" (str error_code)
            (field "error_message" (str error_message) (entry "retryable" (bool true))))
          info info "runtime recovery ended before prepared tool execution")
