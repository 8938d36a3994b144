-- ===== src/Runtime/Nodes/Reading.antt =====
-- vermay/langgraph_runtime/nodes.py: what a node reads, and the updates that several nodes make.
use vermay_agent.Prelude.{ℕ, String, Bool, Option, none, some, List}
use vermay_agent.Runtime.Policy.{
  ExecutionLimit, ExecutionStopReason, canceled, limit_if, control_plane_cancellation,
}
use vermay_agent.Runtime.State.{Call, ToolMessage, Approval, of_limit, of_tool_call, AgentState}

-- What the model client answers, or its `ModelProviderError`.
pub data ModelAnswer : Type 0 where
  provider_error : ModelAnswer
  responded : String → List Call → ModelAnswer

-- `PermissionDecision`, as far as the node reads it.
pub record GateDecision : Type 0 where
  pub allowed : Bool
  pub requires_approval : Bool
  pub reason : String

-- What the ledger's `prepare` answers.
pub record Reference : Type 0 where
  pub invocation_id : String
  pub execution_blocked : Bool
  pub blocked_reason : Option String

-- What a node reads while it runs: the clock and the cancellation signal, before and after the model
-- answers; the model; whether a final answer narrates a tool call; the permission gate, if there is
-- one; the ledger; the messages of LangGraph's `ToolNode`; and the answers to its interrupts.
pub record Input : Type 0 where
  pub now : ℕ
  pub now_after : ℕ
  pub cancelled : Bool
  pub cancelled_after : Bool
  pub model : ModelAnswer
  pub declares_call : Bool
  pub gate : Option (Call → GateDecision)
  pub reference : Call → Option Reference
  pub tool_messages : List Call → List ToolMessage
  pub approvals : List Approval
  pub user_input : Option String

-- A node returns its updates, waits for the answer to an interrupt, or raises.
pub data NodeResult : Type 0 where
  updated : AgentState → NodeResult
  paused : NodeResult
  raised : NodeResult

-- `_cancellation_limit`
abbrev pub cancellation_limit : Bool → Option ExecutionLimit
cancellation_limit cancelled = limit_if cancelled canceled control_plane_cancellation 0 0

-- `_execution_stop_updates`
unfoldable pub stop_with : ExecutionLimit → AgentState → AgentState
stop_with limit st = record st {
  stop_reason = some limit.reason;
  stop_detail = some (of_limit limit);
}

-- `_pause_updates`, `_clear_pause_updates`
unfoldable pub pause_with : ExecutionStopReason → String → AgentState → AgentState
pause_with reason tool_call_id st = record st {
  stop_reason = some reason;
  stop_detail = some (of_tool_call tool_call_id);
}

unfoldable pub clear_pause : AgentState → AgentState
clear_pause st = record st { stop_reason = none; stop_detail = none }

abbrev pub stopped_or : Option ExecutionLimit → AgentState → NodeResult → NodeResult
stopped_or none st result = result
stopped_or (some limit) st result = updated (stop_with limit st)
