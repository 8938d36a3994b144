-- ===== src/Ledger.antt =====
-- vermay/main_agent/invocation_ledger.py (`MainAgentToolInvocationLedger`): the boundary that the graph
-- runtime crosses before and after a tool runs that is not read-only. `sha256` and `json.dumps` of the
-- arguments enter as the digest and the ids that a call hands over, and `casefold` is a parameter.
pub mod Redaction
pub mod Execution
pub mod Wrapper
pub mod Settles
pub mod Prepares
pub mod Once
use Prim.Native.String.{◌++◌ as text_append}
use vermay_agent.Prelude.{
  ℕ, String, ◌==◌, Bool, true, false, ◌&&◌, ◌||◌, not, Option, none, some, List, [], ◌∷◌, is_some,
  truthy, if◌then◌else◌,
}
use vermay_agent.Exec.{Exec, pure, gets, ◌>>=◌, ◌>>◌}
use vermay_agent.Json.{Json, str, obj, Fields, field, entry}
use vermay_agent.Store.{
  Store, TaskRecord, ToolInvocationRecord, ToolInvocationStatus, prepared, running, succeeded,
  failed, uncertain, canceled,
}
use vermay_agent.Store.Invocations.{
  invocation_status_eq, find_invocation, find_latest_tool_invocation_for_effect,
  create_or_get_tool_invocation, begin_tool_invocation, complete_tool_invocation_success,
  mark_tool_invocation_uncertain, cancel_tool_invocation, Ending, NewInvocation,
}

-- `ToolInvocationStatus.value`
abbrev pub invocation_status_value : ToolInvocationStatus → String
invocation_status_value prepared = "prepared"
invocation_status_value running = "running"
invocation_status_value succeeded = "succeeded"
invocation_status_value failed = "failed"
invocation_status_value uncertain = "uncertain"
invocation_status_value canceled = "canceled"

-- `ToolInvocationReference` of vermay/langgraph_runtime/invocations.py
pub record ToolInvocationReference : Type 0 where
  pub invocation_id : String
  pub arguments_digest : String
  pub status : String
  pub execution_blocked : Bool
  pub blocked_reason : Option String

-- `ToolInvocationExecution` of the same file
pub record ToolInvocationExecution : Type 0 where
  pub invocation_id : String
  pub execute : Bool
  pub message : Option String

-- What `prepare` reads off the tool call and the normalised metadata of the tool.
pub record ToolCall : Type 0 where
  pub runtime_thread_id : String
  pub loop_index : ℕ
  pub tool_name : String
  pub tool_call_id : String
  pub normalized_arguments : Fields
  pub arguments_digest : String
  pub capability : Fields
  pub side_effect_level : String
  pub read_only : Bool
  pub approval_required : Bool

-- `_blocked_reference`
unfoldable pub blocked_reference : ToolInvocationRecord → ToolInvocationReference
blocked_reference r = record {
  invocation_id = r.invocation_id;
  arguments_digest = r.arguments_digest;
  status = invocation_status_value r.status;
  execution_blocked = true;
  blocked_reason = some (
      text_append "A matching side-effect invocation is already " (
        text_append (invocation_status_value r.status)
          "; the runtime will not repeat it automatically."));
}

abbrev pub open_reference : ToolInvocationRecord → ToolInvocationReference
open_reference r = record {
  invocation_id = r.invocation_id;
  arguments_digest = r.arguments_digest;
  status = invocation_status_value r.status;
  execution_blocked = false;
  blocked_reason = none;
}

-- `status in {RUNNING, SUCCEEDED, UNCERTAIN}`
abbrev pub is_blocking : ToolInvocationStatus → Bool
is_blocking running = true
is_blocking succeeded = true
is_blocking uncertain = true
is_blocking _ = false

abbrev pub new_invocation : TaskRecord → ToolCall → String → NewInvocation
new_invocation task call invocation_id = record {
  invocation_id = invocation_id;
  task_id = task.task_id;
  context_id = task.context_id;
  runtime_thread_id = call.runtime_thread_id;
  loop_index = call.loop_index;
  tool_call_id = call.tool_call_id;
  tool_name = call.tool_name;
  normalized_arguments = call.normalized_arguments;
  arguments_digest = call.arguments_digest;
  capability = call.capability;
  side_effect_level = call.side_effect_level;
  idempotency_key = none;
  approval_required = call.approval_required;
}

unfoldable pub first_by_thread : String → List TaskRecord → Option TaskRecord
first_by_thread thread [] = none
first_by_thread thread (t ∷ tasks) =
    if t.runtime_thread_id == thread then some t else first_by_thread thread tasks

unfoldable pub get_task_by_runtime_thread_id : String → Store → Option TaskRecord
get_task_by_runtime_thread_id thread s = first_by_thread thread s.tasks

-- The latest invocation with the same effect, if the id itself is new.
unfoldable pub prior_effect : TaskRecord → ToolCall → String → Store → Option ToolInvocationRecord
prior_effect task call invocation_id s =
    if is_some (find_invocation invocation_id s)
    then none
    else find_latest_tool_invocation_for_effect task.task_id call.tool_name call.arguments_digest s

unfoldable pub prepare_new :
    TaskRecord → ToolCall → String → Exec Store (Option ToolInvocationReference)
prepare_new task call invocation_id = do
  r ← create_or_get_tool_invocation (new_invocation task call invocation_id)
  pure (some (if is_blocking r.status then blocked_reference r else open_reference r))

unfoldable pub prepare_after :
    TaskRecord
    → ToolCall
    → String
    → Option ToolInvocationRecord
    → Exec Store (Option ToolInvocationReference)
prepare_after task call invocation_id none = prepare_new task call invocation_id
prepare_after task call invocation_id (some prior) =
    if is_blocking prior.status
    then pure (some (blocked_reference prior))
    else prepare_new task call invocation_id

unfoldable pub prepare_for :
    Option TaskRecord
    → ToolCall
    → (TaskRecord → String)
    → Exec Store (Option ToolInvocationReference)
prepare_for none call invocation_id = pure none
prepare_for (some task) call invocation_id =
    if is_some task.assigned_agent_id || call.read_only || not (truthy call.tool_name)
    then pure none
    else (do
      prior ← gets (prior_effect task call (invocation_id task))
      prepare_after task call (invocation_id task) prior)

-- `invocation_id` is `_invocation_id` at the Task.
unfoldable pub prepare :
    ToolCall → (TaskRecord → String) → Exec Store (Option ToolInvocationReference)
prepare call invocation_id = if not (truthy call.runtime_thread_id) then pure none else (do
  task ← gets (get_task_by_runtime_thread_id call.runtime_thread_id)
  prepare_for task call invocation_id)

abbrev pub verdict_of : String → ToolInvocationRecord → ToolInvocationExecution
verdict_of invocation_id r =
    if invocation_status_eq r.status running
    then record { invocation_id = invocation_id; execute = true; message = none }
    else if invocation_status_eq r.status prepared && r.approval_required
    then record {
      invocation_id = invocation_id;
      execute = false;
      message = some "Tool invocation is still waiting for its bound approval.";
    }
    else record {
      invocation_id = invocation_id;
      execute = false;
      message = some (
          text_append "Tool invocation is already " (
            text_append (invocation_status_value r.status)
              "; it will not be replayed automatically."));
    }

unfoldable pub begin_execution : String → Exec Store ToolInvocationExecution
begin_execution invocation_id = do
  r ← begin_tool_invocation invocation_id
  pure (verdict_of invocation_id r)

-- A tool's response: the failure that `_failed_tool_response` finds in it, if any, its text and its
-- status.
pub record ToolResponse : Type 0 where
  pub failure : Option (String × String)
  pub text : String
  pub status : String

unfoldable pub mark_execution_uncertain : String → String → String → Exec Store Unit
mark_execution_uncertain invocation_id code message = do
  mark_tool_invocation_uncertain invocation_id
      (record { code = code; message = message; retryable = false })
  pure tt

unfoldable pub finish_execution : String → ToolResponse → Exec Store Unit
finish_execution invocation_id response = elim response.failure [
  | some (code, message) ↦ mark_execution_uncertain invocation_id code message
  | none ↦ (do
    complete_tool_invocation_success invocation_id (record {
      artifact_parts = obj (field "kind" (str "text") (entry "text" (str response.text))) ∷ [];
      artifact_metadata = field "kind" (str "tool_invocation_result") (
          field "invocationId" (str invocation_id)
            (entry "toolResultStatus" (str response.status)));
    })
    pure tt)
]

unfoldable pub cancel : String → String → Exec Store Unit
cancel invocation_id reason = do cancel_tool_invocation invocation_id reason; pure tt
