-- ===== src/Runtime/Nodes/Model.antt =====
-- vermay/langgraph_runtime/nodes.py: the node that asks the model.
use vermay_agent.Prelude.{
  ℕ, ◌+◌, String, Bool, ◌&&◌, Option, none, some, List, [], ◌∷◌, ◌++◌, if◌then◌else◌,
}
use vermay_agent.Runtime.Policy.{ExecutionLimit, completed, or_limit}
use vermay_agent.Runtime.State.{Call, ai, model_final_answer, AgentState, model_call_limit, is_nil}
use vermay_agent.Runtime.Nodes.Reading.{
  Input, NodeResult, cancellation_limit, stop_with, stopped_or, provider_error, responded, updated,
  raised,
}

unfoldable pub model_limit : Bool → AgentState → ℕ → Option ExecutionLimit
model_limit cancelled st now = or_limit (cancellation_limit cancelled) (model_call_limit st now)

-- The message of the model, and the final answer if it calls no tool.
unfoldable pub take_response : String → List Call → AgentState → AgentState
take_response content calls st =
    let answered = record st {
      messages = st.messages ++ ai content calls ∷ [];
      model_calls = st.model_calls + 1;
    } in
    if is_nil calls
    then record answered {
      final_answer = some content;
      stop_reason = some completed;
      stop_detail = some model_final_answer;
    }
    else answered

unfoldable pub answer_of : Input → AgentState → NodeResult
answer_of i st = elim i.model [
  | provider_error ↦ raised
  | responded content calls ↦
      if is_nil calls && i.declares_call then raised else updated (take_response content calls st)
]

-- What the node returns, and how often it calls `_invoke_model_with_context` on the way: not at all
-- when a limit stops it before, and once otherwise, whatever comes of the call.
abbrev pub asked_unless : Option ExecutionLimit → AgentState → NodeResult → NodeResult × ℕ
asked_unless none st result = (result, 1)
asked_unless (some limit) st result = (updated (stop_with limit st), 0)

unfoldable pub call_model_asking : Input → AgentState → NodeResult × ℕ
call_model_asking i st =
    asked_unless (model_limit i.cancelled st i.now) st
      (stopped_or (model_limit i.cancelled_after st i.now_after) st (answer_of i st))

unfoldable pub call_model_node : Input → AgentState → NodeResult
call_model_node i st = (call_model_asking i st).0
