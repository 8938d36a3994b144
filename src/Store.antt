-- ===== src/Store.antt =====
-- The tables of vermay/storage.py that vermay/main_agent/store.py reads and writes, with the rows
-- of vermay/main_agent/models.py. Columns of time and the columns `model`, `max_loops` and `mcp`
-- of a Task and four columns of a delegation are left out: no modelled operation reads them.
pub mod Tasks
pub mod Messages
pub mod Queue
pub mod Invocations
use vermay_agent.Prelude.{ℕ, String, Bool, Option, List}
use vermay_agent.Json.{Json, Fields}
use vermay_agent.Lifecycle.{TaskStatus}
use vermay_agent.Command.{CommandKind}

pub data MessageRole : Type 0 where
  user agent system : MessageRole

pub record ContextRow : Type 0 where
  pub context_id : String
  pub next_message_sequence : ℕ

pub record MessageRecord : Type 0 where
  pub message_id : String
  pub context_id : String
  pub role : MessageRole
  pub parts : List Json
  pub task_id : Option String
  pub metadata : Fields
  pub context_sequence : ℕ

pub record TaskRecord : Type 0 where
  pub task_id : String
  pub context_id : String
  pub status : TaskStatus
  pub input_message_id : String
  pub input_context_sequence : ℕ
  pub output_message_id : Option String
  pub runtime_thread_id : String
  pub assigned_agent_id : Option String
  pub retry_of_task_id : Option String
  pub attempt : ℕ
  pub error_code : Option String
  pub error_message : Option String
  pub error_retryable : Bool
  pub lifecycle_revision : ℕ

pub record TaskEventRecord : Type 0 where
  pub event_id : ℕ
  pub task_id : String
  pub type : String
  pub status : Option TaskStatus
  pub lifecycle_revision : ℕ
  pub payload : Fields

pub record PendingContinuationRecord : Type 0 where
  pub task_id : String
  pub kind : String
  pub input_request : Fields

-- A row of `main_agent_queued_executions`; its payload is the JSON column.
pub record QueuedRow : Type 0 where
  pub task_id : String
  pub kind : CommandKind
  pub runtime_thread_id : String
  pub command_version : ℕ
  pub payload : Fields

pub data ToolInvocationStatus : Type 0 where
  prepared running succeeded failed uncertain canceled : ToolInvocationStatus

pub data ToolInvocationApprovalStatus : Type 0 where
  not_required pending approved rejected : ToolInvocationApprovalStatus

pub record ToolInvocationRecord : Type 0 where
  pub invocation_id : String
  pub task_id : String
  pub context_id : String
  pub runtime_thread_id : String
  pub loop_index : ℕ
  pub tool_call_id : String
  pub tool_name : String
  pub normalized_arguments : Fields
  pub arguments_digest : String
  pub capability : Fields
  pub side_effect_level : String
  pub idempotency_key : Option String
  pub approval_required : Bool
  pub approval_status : ToolInvocationApprovalStatus
  pub approval_reason : Option String
  pub status : ToolInvocationStatus
  pub result_artifact_id : Option String
  pub error_code : Option String
  pub error_message : Option String
  pub error_retryable : Bool

pub record ArtifactRecord : Type 0 where
  pub artifact_id : String
  pub task_id : String
  pub context_id : String
  pub parts : List Json
  pub metadata : Fields

pub record DelegatedTaskRecord : Type 0 where
  pub delegation_id : String
  pub remote_agent_id : String
  pub local_task_id : Option String
  pub remote_task_id : Option String
  pub remote_context_id : Option String
  pub status : String
  pub metadata : Fields

pub record Store : Type 0 where
  pub contexts : List ContextRow
  pub messages : List MessageRecord
  pub tasks : List TaskRecord
  pub events : List TaskEventRecord
  pub next_event_id : ℕ
  pub pending : List PendingContinuationRecord
  pub queued : List QueuedRow
  pub invocations : List ToolInvocationRecord
  pub artifacts : List ArtifactRecord
  pub delegations : List DelegatedTaskRecord

abbrev pub task_key : TaskRecord → String
task_key t = t.task_id

abbrev pub pending_key : PendingContinuationRecord → String
pending_key r = r.task_id

abbrev pub queued_key : QueuedRow → String
queued_key r = r.task_id

abbrev pub invocation_key : ToolInvocationRecord → String
invocation_key r = r.invocation_id
