-- ===== src/Outcomes/Results.antt =====
-- `record_local_result`: a finished run of a local Task.
use Prim.Native.String.{◌++◌ as text_append}
use vermay_agent.Prelude.{
  String, ◌==◌, true, ◌||◌, Option, none, some, List, [], ◌∷◌, is_some, or_text, length, show_nat,
  strip, truthy, if◌then◌else◌,
}
use vermay_agent.Exec.{Exec, pure, gets, require, transaction, ◌>>=◌, ◌>>◌, unknown_task}
use vermay_agent.Json.{
  Json, bool, num, str, arr, obj, Fields, field, get, items, entry, merge, json_truthy,
}
use vermay_agent.Lifecycle.{
  TaskStatus, created, queued, running, input_required, auth_required, completed, canceled, failed,
  cancel_requested, status_eq, is_terminal,
}
use vermay_agent.Store.{Store, agent, TaskRecord}
use vermay_agent.Store.Tasks.{
  get_task, append_task_event, transition_local_task, no_failure, or_empty,
}
use vermay_agent.Store.Messages.{
  NewMessage, find_artifact, append_message, upsert_artifact, set_task_output_message,
}
use vermay_agent.Store.Queue.{
  set_pending_continuation, clear_pending_continuation, clear_queued_task_execution,
}
use vermay_agent.Outcomes.{
  LocalTaskRunResult, ErrorInfo, supported_kind, continuation_input_request, local_process_status,
  task_result_lifecycle_payload, task_result_execution_metadata, task_result_error_payload,
  task_result_observations, record_cancellation, fail_task, record_failure,
}

-- The checks that each recorder repeats inside its transaction.
unfoldable pub while_open : String → (TaskRecord → Exec Store TaskRecord) → Exec Store TaskRecord
while_open task_id body = transaction (do
  found ← get_task task_id
  task ← require found (unknown_task task_id)
  if is_terminal task.status
      then pure task
      else (if status_eq task.status cancel_requested
          then record_cancellation task_id
          else body task))

abbrev pub artifact_event : String → String → Option Fields
artifact_event artifact_id kind =
    some (field "artifact_id" (str artifact_id) (entry "kind" (str kind)))

-- `_persist_observations`
unfoldable pub write_observations :
    TaskRecord → LocalTaskRunResult → List Json → Exec Store (Option String)
write_observations task result [] = pure none
write_observations task result (o ∷ observations) = do
  let artifact_id = text_append task.task_id ":tool_observations"
  existing ← gets (find_artifact artifact_id)
  artifact ← upsert_artifact (record {
    artifact_id = artifact_id;
    task_id = task.task_id;
    context_id = task.context_id;
    parts =
        obj (
          field "kind" (str "data")
            (entry "data" (obj (entry "observations" (arr (items (o ∷ observations)))))))
        ∷ [];
    metadata =
        merge
          (field "kind" (str "tool_observations")
            (entry "observationCount" (num (show_nat (length (o ∷ observations))))))
          (task_result_execution_metadata result none);
  })
  append_task_event task.task_id
      (if is_some existing then "task_artifact_updated" else "task_artifact_created") none
      (artifact_event artifact.artifact_id "tool_observations")
  pure (some artifact.artifact_id)

unfoldable pub persist_observations : TaskRecord → LocalTaskRunResult → Exec Store (Option String)
persist_observations task result = write_observations task result (task_result_observations result)

-- `a or b` on lists
abbrev pub or_list {ℓ} : {A : Type ℓ} → List A → List A → List A
or_list [] ys = ys
or_list (x ∷ xs) ys = x ∷ xs

unfoldable pub answer_message :
    String → LocalTaskRunResult → Option Fields → String → TaskRecord → NewMessage
answer_message task_id result metadata message_id task = record {
  message_id = message_id;
  context_id = task.context_id;
  role = agent;
  parts = result.parts;
  task_id = some task_id;
  metadata = merge (or_empty metadata) (entry "routeKind" (str "local_task"));
}

unfoldable pub publish_answer :
    String → LocalTaskRunResult → Option String → TaskRecord → String → Exec Store Unit
publish_answer task_id result observed task output_message_id = do
  artifact ← upsert_artifact (record {
    artifact_id = text_append task_id ":final_answer";
    task_id = task_id;
    context_id = task.context_id;
    parts = or_list result.artifact_parts result.parts;
    metadata =
        merge (field "kind" (str "final_answer") (entry "outputMessageId" (str output_message_id)))
          (task_result_execution_metadata result observed);
  })
  append_task_event task_id "task_artifact_created" none
      (artifact_event artifact.artifact_id "final_answer")

unfoldable pub close_completed :
    String → LocalTaskRunResult → Option String → String → Exec Store TaskRecord
close_completed task_id result observed output_message_id = do
  set_task_output_message task_id output_message_id
  ended ←
      transition_local_task task_id completed (some (task_result_lifecycle_payload result observed))
        no_failure
  clear_pending_continuation task_id
  clear_queued_task_execution task_id
  pure ended

unfoldable pub complete_task :
    String → LocalTaskRunResult → Option Fields → String → TaskRecord → Exec Store TaskRecord
complete_task task_id result metadata message_id task = do
  observed ← persist_observations task result
  message ← append_message (answer_message task_id result metadata message_id task)
  publish_answer task_id result observed task message.message_id
  close_completed task_id result observed message.message_id

unfoldable pub record_completed_result :
    String → LocalTaskRunResult → Option Fields → String → Exec Store TaskRecord
record_completed_result task_id result metadata message_id =
    while_open task_id (complete_task task_id result metadata message_id)

-- `isinstance(prompt, str) and prompt.strip()`
unfoldable pub prompt_text : Option Json → String
prompt_text (some (str prompt)) =
    if truthy (strip prompt)
    then strip prompt
    else "Please provide the information required to continue."
prompt_text _ = "Please provide the information required to continue."

-- `_input_request_prompt`
unfoldable pub input_request_prompt : Fields → String
input_request_prompt request = elim (get "prompt" request) [
  | none ↦ prompt_text (get "message" request)
  | some prompt ↦ prompt_text (if json_truthy prompt then some prompt else get "message" request)
]

unfoldable pub ask_for_input : String → TaskRecord → TaskRecord → Fields → Exec Store Unit
ask_for_input task_id task active request = do
  let revision = show_nat active.lifecycle_revision
  append_message (record {
    message_id = text_append "msg-input-request-" (text_append task_id (text_append "-" revision));
    context_id = task.context_id;
    role = agent;
    parts =
        obj (field "kind" (str "text") (entry "text" (str (input_request_prompt request)))) ∷ [];
    task_id = some task_id;
    metadata = field "routeKind" (str "local_task") (
        field "messageKind" (str "task_input_request")
          (field "inputRequest" (obj request) (entry "inputRequestRevision" (num revision))));
  })
  pure tt

-- `record_local_result` calls it only with a supported request.
unfoldable pub interrupt_task :
    String → LocalTaskRunResult → TaskStatus → Fields → String → TaskRecord → Exec Store TaskRecord
interrupt_task task_id result result_status request kind task = do
  observed ← persist_observations task result
  set_pending_continuation (record { task_id = task_id; kind = kind; input_request = request })
  active ←
      transition_local_task task_id result_status (some (task_result_error_payload result observed))
        no_failure
  if kind == "user_input_required" then ask_for_input task_id task active request else pure tt
  clear_queued_task_execution task_id
  pure active

unfoldable pub record_interrupted_result :
    String → LocalTaskRunResult → TaskStatus → Fields → String → Exec Store TaskRecord
record_interrupted_result task_id result result_status request kind =
    while_open task_id (interrupt_task task_id result result_status request kind)

-- `TaskStatus.value`
abbrev pub status_value : TaskStatus → String
status_value created = "created"
status_value queued = "queued"
status_value running = "running"
status_value cancel_requested = "cancel_requested"
status_value input_required = "input_required"
status_value auth_required = "auth_required"
status_value completed = "completed"
status_value canceled = "canceled"
status_value failed = "failed"

abbrev pub result_failure : LocalTaskRunResult → TaskStatus → ErrorInfo
result_failure result result_status = record {
  code = or_text result.error_code "task_not_completed";
  message =
      or_text result.error_message
        (text_append "local task ended with unsupported status: " (status_value result_status));
  retryable = result.error_retryable;
}

unfoldable pub fail_with_result :
    String → LocalTaskRunResult → TaskStatus → TaskRecord → Exec Store TaskRecord
fail_with_result task_id result result_status task = do
  let info = result_failure result result_status
  observed ← persist_observations task result
  fail_task task_id
      (merge
        (field "error_code" (str info.code)
          (field "error_message" (str info.message) (entry "retryable" (bool info.retryable))))
        (task_result_lifecycle_payload result observed))
      info
      (record {
        code = "task_ended_before_tool_outcome";
        message = "Task ended before a side-effecting tool outcome was durably recorded.";
        retryable = true;
      })
      "task failed before prepared tool execution"

unfoldable pub record_failed_result :
    String → LocalTaskRunResult → TaskStatus → Exec Store TaskRecord
record_failed_result task_id result result_status =
    while_open task_id (fail_with_result task_id result result_status)

-- `unsupported` is what `error_info_from_exception` reads off the `ValueError` for a result that was
-- interrupted without a supported request.
unfoldable pub record_accepted_result :
    String
    → LocalTaskRunResult
    → Option Fields
    → String
    → ErrorInfo
    → TaskRecord
    → TaskStatus
    → Exec Store TaskRecord
record_accepted_result task_id result metadata message_id unsupported task result_status =
    if status_eq result_status completed
    then record_completed_result task_id result metadata message_id
    else if status_eq result_status running
    then pure task
    else if status_eq result_status input_required || status_eq result_status auth_required
    then elim (continuation_input_request result) [
      | none ↦ record_failure task_id unsupported
      | some request ↦
          record_interrupted_result task_id result result_status request
            (or_text (supported_kind request) "")
    ]
    else record_failed_result task_id result result_status

unfoldable pub record_local_result :
    String → LocalTaskRunResult → Option Fields → String → ErrorInfo → Exec Store TaskRecord
record_local_result task_id result metadata message_id unsupported = do
  found ← get_task task_id
  task ← require found (unknown_task task_id)
  if is_terminal task.status
      then pure task
      else (if status_eq task.status cancel_requested
          then record_cancellation task_id
          else record_accepted_result task_id result metadata message_id unsupported task
              (local_process_status result))
