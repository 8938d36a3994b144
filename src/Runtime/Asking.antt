-- ===== src/Runtime/Asking.antt =====
-- vermay/langgraph_runtime/nodes.py: the two ways of the model node.
use vermay_agent.Prelude.{◌≡◌, none, some, arith}
use vermay_agent.Runtime.Policy.{ExecutionLimit}
use vermay_agent.Runtime.State.{AgentState}
use vermay_agent.Runtime.Nodes.{
  Input, updated, stop_with, stopped_or, model_limit, answer_of, call_model_asking, call_model_node,
}

module _ (i : Input) (st : AgentState) where
  -- A limit stops the node before it asks.
  pub asks_not :
      (l : ExecutionLimit)
      → model_limit i.cancelled st i.now ≡ some l
      → call_model_node i st ≡ updated (stop_with l st)
  unfolding call_model_node call_model_asking
  asks_not l h = ground (arith, h)

  pub requests_none :
      (l : ExecutionLimit)
      → model_limit i.cancelled st i.now ≡ some l
      → (call_model_asking i st).1 ≡ 0
  unfolding call_model_asking
  requests_none l h = ground (arith, h)

  -- The node asks once.
  pub asks_once :
      model_limit i.cancelled st i.now ≡ none
      → call_model_node i st
        ≡ stopped_or (model_limit i.cancelled_after st i.now_after) st (answer_of i st)
  unfolding call_model_node call_model_asking
  asks_once h = ground (arith, h)

  pub requests_one : model_limit i.cancelled st i.now ≡ none → (call_model_asking i st).1 ≡ 1
  unfolding call_model_asking
  requests_one h = ground (arith, h)
