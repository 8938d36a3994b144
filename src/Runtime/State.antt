-- ===== src/Runtime/State.antt =====
-- vermay/langgraph_runtime/state.py and routing.py: the state of one run of the graph, the limits of
-- execution.py on it, and the routes.
use vermay_agent.Prelude.{
  ℕ, ◌+◌, ◌-◌, String, Bool, true, false, Option, none, some, is_some, List, [], ◌∷◌, ltb, leb,
  if◌then◌else◌,
}
use vermay_agent.Json.{Fields}
use vermay_agent.Runtime.Policy.{
  ExecutionPolicy, PolicyDict, from_dict, to_dict, from_max_loops, ExecutionLimit,
  ExecutionStopReason, budget_exhausted as budget_stop, repeated_failure, elapsed_limit, or_limit,
  limit_if, limit_model_calls, limit_failures, limit_tool_calls, limit_loop_steps,
}

-- One entry of `AIMessage.tool_calls`.
pub record Call : Type 0 where
  pub id : String
  pub name : String
  pub args : Fields

-- A `ToolMessage`: its status, and its content where that is a JSON object.
pub record ToolMessage : Type 0 where
  pub tool_call_id : String
  pub name : String
  pub is_error : Bool
  pub structured : Option Fields

-- A message: of the model, of a tool, or of the user or the system.
pub data Message : Type 0 where
  ai : String → List Call → Message
  tool : ToolMessage → Message
  prompt : String → Message

pub data PermissionStatus : Type 0 where
  allowed denied approval_required input_required budget_exhausted : PermissionStatus

-- One entry of `permission["decisions"]`, with the reference that the ledger gave.
pub record Decision : Type 0 where
  pub status : PermissionStatus
  pub reason : String
  pub call : Call
  pub invocation_id : Option String
  pub execution_blocked : Bool

pub record Permission : Type 0 where
  pub status : PermissionStatus
  pub reason : String
  pub tool_call : Option Call
  pub tool_calls : List Call
  pub decisions : List Decision

pub record Approval : Type 0 where
  pub approved : Bool
  pub reason : String

-- `stop_detail`: of a limit, of a tool call that waits, or of an answer.
pub data StopDetail : Type 0 where
  of_limit : ExecutionLimit → StopDetail
  of_tool_call : String → StopDetail
  model_final_answer : StopDetail
  approval_rejected permission_denied : String → StopDetail

-- `normalize_tool_observation`, as far as the graph reads it.
pub record Observation : Type 0 where
  pub loop_index : ℕ
  pub tool_call_id : String
  pub tool_name : String
  pub ok : Bool
  pub error_category : Option String
  pub retryable : Bool

-- `AgentState`. The stop message and the list of errors, which no node reads, are left out.
pub record AgentState : Type 0 where
  pub messages : List Message
  pub permission : Option Permission
  pub approval : Option Approval
  pub final_answer : Option String
  pub loop_index : ℕ
  pub max_loops : ℕ
  pub execution_policy : Option PolicyDict
  pub execution_started_at : ℕ
  pub model_calls : ℕ
  pub tool_calls : ℕ
  pub failure_count : ℕ
  pub tool_argument_error_rounds : ℕ
  pub observations : List Observation
  pub stop_reason : Option ExecutionStopReason
  pub stop_detail : Option StopDetail

-- `build_initial_state` for messages that are put together already.
unfoldable pub build_initial_state : List Message → ExecutionPolicy → ℕ → AgentState
build_initial_state messages policy now = record {
  messages = messages;
  permission = none;
  approval = none;
  final_answer = none;
  loop_index = 1;
  max_loops = policy.max_loop_steps;
  execution_policy = some (to_dict policy);
  execution_started_at = now;
  model_calls = 0;
  tool_calls = 0;
  failure_count = 0;
  tool_argument_error_rounds = 0;
  observations = [];
  stop_reason = none;
  stop_detail = none;
}

-- The policy for a limit of loops that is no number from 1 on is the one for 5.
unfoldable pub policy_of_loops : ℕ → ExecutionPolicy
policy_of_loops max_loops = elim (from_max_loops max_loops) [
  | some policy ↦ policy
  | none ↦ record {
    max_model_calls = 5;
    max_tool_calls = 20;
    max_failures = 2;
    max_tool_argument_corrections = 1;
    max_loop_steps = 5;
    max_elapsed_seconds = none;
  }
]

-- `policy_from_state`; a checkpoint of an older version has no dictionary.
unfoldable pub policy_of : Option PolicyDict → ℕ → ExecutionPolicy
policy_of (some d) max_loops = from_dict d
policy_of none max_loops = policy_of_loops max_loops

unfoldable pub policy_from_state : AgentState → ExecutionPolicy
policy_from_state st = policy_of st.execution_policy st.max_loops

unfoldable pub model_call_limit : AgentState → ℕ → Option ExecutionLimit
model_call_limit st now =
    let policy = policy_from_state st in
    or_limit (elapsed_limit policy st.execution_started_at now) (
      or_limit
        (limit_if (leb policy.max_model_calls st.model_calls) budget_stop limit_model_calls
          policy.max_model_calls st.model_calls)
        (limit_if (leb policy.max_failures st.failure_count) repeated_failure limit_failures
          policy.max_failures st.failure_count))

unfoldable pub tool_call_limit : AgentState → ℕ → ℕ → Option ExecutionLimit
tool_call_limit st now requested =
    let policy = policy_from_state st in
    or_limit (elapsed_limit policy st.execution_started_at now) (
      limit_if (ltb policy.max_tool_calls (st.tool_calls + requested)) budget_stop limit_tool_calls
        policy.max_tool_calls st.tool_calls)

unfoldable pub loop_step_limit : AgentState → ℕ → ℕ → Option ExecutionLimit
loop_step_limit st now next_loop_index =
    let policy = policy_from_state st in
    or_limit (elapsed_limit policy st.execution_started_at now) (
      limit_if (ltb policy.max_loop_steps next_loop_index) budget_stop limit_loop_steps
        policy.max_loop_steps (next_loop_index - 1))

-- `latest_ai_message`, as the tool calls of the last message of the model; none without one.
unfoldable pub latest_calls : List Message → Option (List Call)
latest_calls [] = none
latest_calls (m ∷ messages) = elim (latest_calls messages) [
  | some calls ↦ some calls
  | none ↦ elim m [ ai _ calls ↦ some calls | _ ↦ none ]
]

-- `ai_message.tool_calls if ai_message else []`
abbrev pub calls_or_none : Option (List Call) → List Call
calls_or_none none = []
calls_or_none (some calls) = calls

abbrev pub is_nil : List Call → Bool
is_nil [] = true
is_nil _ = false

-- Where a route leads; `end` is the end of the run.
pub data Node : Type 0 where
  call_model check_permission approval_node user_input_node reject_tool : Node
  tools record_tool_messages increment_loop max_loops_node end : Node

unfoldable pub route_after_model : AgentState → Node
route_after_model st =
    if is_some st.final_answer
    then end
    else if is_some st.stop_reason
    then end
    else if is_nil (calls_or_none (latest_calls st.messages))
    then end
    else check_permission

unfoldable pub route_after_permission : AgentState → Node
route_after_permission st = elim st.permission [
  | none ↦ if is_some st.stop_reason then end else reject_tool
  | some p ↦ elim p.status [
    | allowed ↦ tools
    | input_required ↦ user_input_node
    | approval_required ↦ approval_node
    | _ ↦ if is_some st.stop_reason then end else reject_tool
  ]
]

unfoldable pub route_after_approval : AgentState → Node
route_after_approval st = elim st.approval [
  | none ↦ reject_tool
  | some approval ↦ if approval.approved then tools else reject_tool
]

unfoldable pub route_loop_limit : AgentState → Node
route_loop_limit st =
    if is_some st.stop_reason
    then end
    else if ltb st.max_loops st.loop_index
    then max_loops_node
    else call_model
