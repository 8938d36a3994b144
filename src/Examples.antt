-- ===== src/Examples.antt =====
-- Concrete stores on which the theorems of the other modules are tried.
mod Lifecycles
mod Queues
mod Ledgers
mod Endings
mod Commands
mod Effects
mod Texts
mod Runs
mod Attempts
mod Resumes
mod Transactions
mod Metadata
use vermay_agent.Prelude.{String, false, none, some, [], ◌∷◌}
use vermay_agent.Json.{end, entry, field, str, obj}
use vermay_agent.Lifecycle.{TaskStatus, queued, running, cancel_requested, completed}
use vermay_agent.Command.{initial}
use vermay_agent.Store.{Store, TaskRecord, ContextRow, QueuedRow}
use vermay_agent.Store.Tasks.{Failure}
use vermay_agent.Store.Invocations.{NewInvocation, Ending, NewResult}
use vermay_agent.Outcomes.{LocalTaskRunResult, ErrorInfo}

abbrev pub task_of : String → TaskStatus → TaskRecord
task_of id status = record {
  task_id = id;
  context_id = "ctx";
  status = status;
  input_message_id = "msg-1";
  input_context_sequence = 1;
  output_message_id = none;
  runtime_thread_id = "thread";
  assigned_agent_id = none;
  retry_of_task_id = none;
  attempt = 1;
  error_code = none;
  error_message = none;
  error_retryable = false;
  lifecycle_revision = 0;
}

abbrev pub context_row : ContextRow
context_row = record { context_id = "ctx"; next_message_sequence = 2 }

abbrev pub queued_row : QueuedRow
queued_row = record {
  task_id = "task-1";
  kind = initial;
  runtime_thread_id = "thread";
  command_version = 1;
  payload = end;
}

-- One Task of each of four statuses, and no other row but the context.
abbrev pub four_tasks : Store
four_tasks = record {
  contexts = context_row ∷ [];
  messages = [];
  tasks =
      task_of "task-1" queued
      ∷ task_of "task-2" running
      ∷ task_of "task-3" cancel_requested
      ∷ task_of "task-4" completed
      ∷ [];
  events = [];
  next_event_id = 1;
  pending = [];
  queued = [];
  invocations = [];
  artifacts = [];
  delegations = [];
}

abbrev pub one_command : Store
one_command = record four_tasks { queued = queued_row ∷ [] }

abbrev pub delete_file : NewInvocation
delete_file = record {
  invocation_id = "inv-1";
  task_id = "task-2";
  context_id = "ctx";
  runtime_thread_id = "thread";
  loop_index = 1;
  tool_call_id = "call-1";
  tool_name = "delete_file";
  normalized_arguments = entry "path" (str "a.txt");
  arguments_digest = "d1";
  capability = end;
  side_effect_level = "destructive";
  idempotency_key = none;
  approval_required = false;
}

abbrev pub uncertain_ending : Ending
uncertain_ending = record { code = "lost"; message = "outcome unknown"; retryable = false }

abbrev pub text_result : NewResult
text_result = record {
  artifact_parts = obj (field "kind" (str "text") (entry "text" (str "done"))) ∷ [];
  artifact_metadata = end;
}

abbrev pub answer : LocalTaskRunResult
answer = record {
  status = completed;
  parts = obj (field "kind" (str "text") (entry "text" (str "42"))) ∷ [];
  artifact_parts = [];
  error_code = none;
  error_message = none;
  error_retryable = false;
  input_request = none;
  observations = [];
  execution = end;
}

abbrev pub some_error : ErrorInfo
some_error = record { code = "internal_error"; message = "it broke"; retryable = false }
