-- ===== src/Runtime/Spending.antt =====
-- vermay/langgraph_runtime/nodes.py and graph.py: what a run asks of the outside, counted where it is
-- asked and not by the state's own counters.
pub mod Unspent
pub mod Paid
pub mod Steps
use vermay_agent.Prelude.{ℕ, zero, suc, ◌+◌, ◌≡◌, Option, none, some, length}
use vermay_agent.Runtime.Policy.{ExecutionLimit}
use vermay_agent.Runtime.State.{AgentState, call_model, tools, latest_calls, calls_or_none}
use vermay_agent.Runtime.Nodes.{Input, NodeResult, updated, paused, raised, call_model_asking}
use vermay_agent.Runtime.Graph.{Position, at, step}

-- The requests to the model of the node at a position, failed ones and those that a limit cuts
-- included.
unfoldable pub model_requests : Input → Position → ℕ
model_requests i (at call_model st) = (call_model_asking i st).1
model_requests i _ = 0

-- The tool calls that the node at a position hands to LangGraph's `ToolNode`.
unfoldable pub tool_runs : Input → Position → ℕ
tool_runs i (at tools st) = length (calls_or_none (latest_calls st.messages))
tool_runs i _ = 0

-- A count over the nodes of `run`.
unfoldable pub over_run : (Input → Position → ℕ) → ℕ → (ℕ → Input) → ℕ → Position → ℕ
over_run count zero world k p = 0
over_run count (suc fuel) world k p =
    count (world k) p + over_run count fuel world (k + 1) (step (world k) p)

-- A node that spends nothing.
abbrev pub Keeps : AgentState → NodeResult → Type 0
Keeps st (updated after) = (after.model_calls ≡ st.model_calls) × (after.tool_calls ≡ st.tool_calls)
Keeps st paused = Unit
Keeps st raised = Unit
