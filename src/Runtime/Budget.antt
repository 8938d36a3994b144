-- ===== src/Runtime/Budget.antt =====
-- vermay/langgraph_runtime: the counters of the state against the limits of the policy, node by node.
pub mod Model
pub mod Routed
pub mod Gate
pub mod Answers
pub mod Rounds
use vermay_agent.Prelude.{
  ℕ, String, zero, suc, ◌+◌, ◌-◌, ◌≤◌, ◌<◌, ◌≡◌, refl, sym, ap, Bool, true, false, ◌&&◌, not,
  Option, none, some, is_some, List, [], ◌∷◌, ◌++◌, map, select, length, ltb, leb, if◌then◌else◌,
  arith, Bool-cases, Option-cases, inl, inr,
}
use vermay_agent.Runtime.Policy.{ExecutionPolicy, ExecutionLimit, elapsed_limit, or_limit, limit_if}
use vermay_agent.Runtime.State.{
  AgentState, Call, ToolMessage, Message, ai, Permission, Decision, Node, call_model,
  check_permission, approval_node, user_input_node, reject_tool, tools, record_tool_messages,
  increment_loop, max_loops_node as max_loops_at, end, latest_calls, calls_or_none, is_nil,
  policy_of, policy_from_state, model_call_limit, tool_call_limit, loop_step_limit,
  route_after_model, route_after_permission, route_after_approval, route_loop_limit,
}
use vermay_agent.Runtime.Nodes.{
  Input, NodeResult, ModelAnswer, provider_error, responded, updated, paused, raised, stop_with,
  stopped_or, model_limit, take_response, answer_of, call_model_node, permit_calls, gate_calls,
  weigh, check_permission_node, latest_tool_messages,
}
use vermay_agent.Runtime.Graph.{
  Position, at, finished, interrupted, failed, after_node, next_node, run_node,
}
use vermay_agent.Runtime.Messages.{
  ends_with_calls, latest_calls-append, ends_with_calls-append, latest_calls-ends,
}

-- The calls that wait for execution or for their observation.
unfoldable pub reserved : Node → AgentState → ℕ
reserved approval_node st = length (calls_or_none (latest_calls st.messages))
reserved tools st = length (calls_or_none (latest_calls st.messages))
reserved record_tool_messages st = length (latest_tool_messages st.messages)
reserved _ st = 0

-- The nodes that read the calls of the model's message.
abbrev pub reads_calls : Node → Bool
reads_calls check_permission = true
reads_calls approval_node = true
reads_calls tools = true
reads_calls _ = false

-- The nodes before the decision of the gate.
abbrev pub before_gate : Node → Bool
before_gate call_model = true
before_gate check_permission = true
before_gate _ = false

-- What the policy allows, whatever the node.
pub record Within (q : ExecutionPolicy) (st : AgentState) : Type 0 where
  pub policy : policy_from_state st ≡ q
  pub models : st.model_calls ≤ q.max_model_calls
  pub tools : st.tool_calls ≤ q.max_tool_calls

pub record Inv (q : ExecutionPolicy) (n : Node) (st : AgentState) : Type 0 where
  pub within : Within q st
  pub fits : st.tool_calls + reserved n st ≤ q.max_tool_calls
  pub loops : st.loop_index ≤ q.max_loop_steps
  pub calls : reads_calls n ≡ true → ends_with_calls st.messages ≡ true
  pub open_ : is_some st.final_answer ≡ false
  pub fresh : before_gate n ≡ true → is_some st.permission ≡ false

-- `ToolNode` answers each call with one message.
pub record AnswersCalls (i : Input) : Type 0 where
  pub one_each : (calls : List Call) → length (i.tool_messages calls) ≡ length calls

pub below_model_limit :
    (cancelled : Bool) (st : AgentState) (now : ℕ)
    → model_limit cancelled st now ≡ none
    → st.model_calls < (policy_from_state st).max_model_calls
unfolding model_limit model_call_limit
below_model_limit cancelled st now h = ground (arith, h)

pub below_tool_limit :
    (st : AgentState) (now requested : ℕ)
    → tool_call_limit st now requested ≡ none
    → st.tool_calls + requested ≤ (policy_from_state st).max_tool_calls
unfolding tool_call_limit
below_tool_limit st now requested h = ground (arith, h)

pub below_step_limit :
    (st : AgentState) (now next : ℕ)
    → loop_step_limit st now next ≡ none
    → next ≤ (policy_from_state st).max_loop_steps
unfolding loop_step_limit
below_step_limit st now next h = ground (arith, h)

-- The end of a run: within the limits, and with a reason.
pub record Done (q : ExecutionPolicy) (st : AgentState) : Type 0 where
  pub within : Within q st
  pub loops : st.loop_index ≤ q.max_loop_steps + 1
  pub reason : is_some st.stop_reason ≡ true

abbrev pub HoldsAt : ExecutionPolicy → Node → AgentState → Type 0
HoldsAt q end st = Done q st
HoldsAt q n st = Inv q n st

unfoldable pub Holds : ExecutionPolicy → Position → Type 0
Holds q (at n st) = HoldsAt q n st
Holds q (finished st) = Done q st
Holds q (interrupted n st) = Inv q n st
Holds q (failed n st) = Inv q n st

module _ (q : ExecutionPolicy) (st : AgentState) where
  pub Done-stop_with : (n : Node) (l : ExecutionLimit) → Inv q n st → Done q (stop_with l st)
  unfolding stop_with policy_from_state
  Done-stop_with n l inv = record {
    within = record {
      policy = inv.within.policy;
      models = inv.within.models;
      tools = inv.within.tools;
    };
    loops = omega (arith, inv.loops);
    reason = refl;
  }
