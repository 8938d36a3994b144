-- ===== src/Runtime/Graph.antt =====
-- vermay/langgraph_runtime/graph.py: the edges, and a run as LangGraph follows them, one node after
-- another.
use vermay_agent.Prelude.{ℕ, zero, suc, ◌+◌}
use vermay_agent.Runtime.State.{
  AgentState, Node, call_model, check_permission, approval_node, user_input_node, reject_tool,
  tools, record_tool_messages, increment_loop, max_loops_node as max_loops_at, end,
  route_after_model, route_after_permission, route_after_approval, route_loop_limit,
}
use vermay_agent.Runtime.Nodes.{
  Input, NodeResult, updated, paused, raised, call_model_node, check_permission_node,
  approval_required_node, user_input_required_node, reject_tool_node, tools_node,
  record_tool_messages_node, increment_loop_node, max_loops_node,
}

unfoldable pub run_node : Node → Input → AgentState → NodeResult
run_node call_model i st = call_model_node i st
run_node check_permission i st = check_permission_node i st
run_node approval_node i st = approval_required_node i st
run_node user_input_node i st = user_input_required_node i st
run_node reject_tool i st = reject_tool_node i st
run_node tools i st = tools_node i st
run_node record_tool_messages i st = record_tool_messages_node i st
run_node increment_loop i st = increment_loop_node i st
run_node max_loops_at i st = max_loops_node i st
run_node end i st = updated st

-- The edge out of a node, in the state that it left.
unfoldable pub next_node : Node → AgentState → Node
next_node call_model st = route_after_model st
next_node check_permission st = route_after_permission st
next_node approval_node st = route_after_approval st
next_node user_input_node st = increment_loop
next_node reject_tool st = end
next_node tools st = record_tool_messages
next_node record_tool_messages st = increment_loop
next_node increment_loop st = route_loop_limit st
next_node max_loops_at st = end
next_node end st = end

-- Where a run stands: at a node, at its end, at an interrupt, or with an exception.
pub data Position : Type 0 where
  at : Node → AgentState → Position
  finished : AgentState → Position
  interrupted : Node → AgentState → Position
  failed : Node → AgentState → Position

abbrev pub arrive : Node → AgentState → Position
arrive end st = finished st
arrive n st = at n st

unfoldable pub after_node : Node → AgentState → NodeResult → Position
after_node n before (updated st) = arrive (next_node n st) st
after_node n before paused = interrupted n before
after_node n before raised = failed n before

unfoldable pub step : Input → Position → Position
step i (at n st) = after_node n st (run_node n i st)
step i (finished st) = finished st
step i (interrupted n st) = interrupted n st
step i (failed n st) = failed n st

-- `invoke`, for as many nodes as there is fuel; `world k` is what the k-th node reads.
unfoldable pub run : ℕ → (ℕ → Input) → ℕ → Position → Position
run zero world k p = p
run (suc fuel) world k p = run fuel world (k + 1) (step (world k) p)
