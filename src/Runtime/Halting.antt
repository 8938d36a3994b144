-- ===== src/Runtime/Halting.antt =====
-- vermay/langgraph_runtime/graph.py: a measure of a position in a run.
use vermay_agent.Prelude.{
  ℕ, zero, suc, ◌+◌, ◌-◌, ◌*◌, ◌≤◌, ◌<◌, ◌≡◌, ◌∙◌, refl, ap, Bool, true, false, Option, none, some,
  is_some, ltb, arith, Bool-cases, Option-cases, inl, inr,
}
use vermay_agent.Runtime.Policy.{ExecutionPolicy}
use vermay_agent.Runtime.State.{
  AgentState, Permission, PermissionStatus, allowed, denied, approval_required, input_required,
  budget_exhausted, Node, call_model, check_permission, approval_node, user_input_node, reject_tool,
  tools, record_tool_messages, increment_loop, max_loops_node as max_loops_at, end,
  policy_from_state, loop_step_limit, route_after_model, route_after_permission,
  route_after_approval, route_loop_limit, latest_calls, calls_or_none, is_nil,
}
use vermay_agent.Runtime.Nodes.{Input, NodeResult, updated, paused, raised}
use vermay_agent.Runtime.Graph.{
  Position, at, finished, interrupted, failed, arrive, after_node, next_node,
}
pub mod Updates
pub mod Loops

-- How many nodes may follow in the same loop.
abbrev pub weight : Node → ℕ
weight call_model = 5
weight check_permission = 4
weight approval_node = 3
weight user_input_node = 3
weight tools = 2
weight record_tool_messages = 1
weight _ = 0

-- How many nodes a run may still enter.
abbrev pub remaining : ExecutionPolicy → Position → ℕ
remaining q (at n st) = 1 + 6 * (q.max_loop_steps + 1 - st.loop_index) + weight n
remaining q _ = 0

pub record Steady (q : ExecutionPolicy) (st : AgentState) : Type 0 where
  pub policy : policy_from_state st ≡ q
  pub loops : st.loop_index ≤ q.max_loop_steps

-- What a node keeps of the state, unless it is the one that begins a loop.
pub record Kept (before after : AgentState) : Type 0 where
  pub policy : policy_from_state after ≡ policy_from_state before
  pub loops : after.loop_index ≡ before.loop_index

unfoldable pub Falls : ExecutionPolicy → ℕ → Position → Type 0
Falls q bound (at n st) = Steady q st × (remaining q (at n st) < bound)
Falls q bound _ = Unit

-- A node's updates keep the state, and lead closer to the end of the loop.
abbrev pub Closer : Node → AgentState → NodeResult → Type 0
Closer n before (updated st) = Kept before st × (weight (next_node n st) < weight n)
Closer n before _ = Unit

Falls-at :
    (q : ExecutionPolicy) (n m : Node) (before after : AgentState)
    → Steady q before
    → Kept before after
    → weight m < weight n
    → Falls q (remaining q (at n before)) (at m after)
unfolding Falls
Falls-at q n m before after steady kept lighter = (
  record { policy = kept.policy ∙ steady.policy; loops = omega (arith, steady.loops, kept.loops) },
  omega (arith, kept.loops, lighter),
)

Falls-arrive :
    (q : ExecutionPolicy) (n m : Node) (before after : AgentState)
    → Steady q before
    → Kept before after
    → weight m < weight n
    → Falls q (remaining q (at n before)) (arrive m after)
unfolding Falls
Falls-arrive q n call_model before after steady kept lighter =
    Falls-at q n call_model before after steady kept lighter
Falls-arrive q n check_permission before after steady kept lighter =
    Falls-at q n check_permission before after steady kept lighter
Falls-arrive q n approval_node before after steady kept lighter =
    Falls-at q n approval_node before after steady kept lighter
Falls-arrive q n user_input_node before after steady kept lighter =
    Falls-at q n user_input_node before after steady kept lighter
Falls-arrive q n reject_tool before after steady kept lighter =
    Falls-at q n reject_tool before after steady kept lighter
Falls-arrive q n tools before after steady kept lighter =
    Falls-at q n tools before after steady kept lighter
Falls-arrive q n record_tool_messages before after steady kept lighter =
    Falls-at q n record_tool_messages before after steady kept lighter
Falls-arrive q n increment_loop before after steady kept lighter =
    Falls-at q n increment_loop before after steady kept lighter
Falls-arrive q n max_loops_at before after steady kept lighter =
    Falls-at q n max_loops_at before after steady kept lighter
Falls-arrive q n end before after steady kept lighter = tt

pub Falls-Closer :
    (q : ExecutionPolicy) (n : Node) (before : AgentState) (r : NodeResult)
    → Steady q before
    → Closer n before r
    → Falls q (remaining q (at n before)) (after_node n before r)
unfolding after_node Falls
Falls-Closer q n before (updated st) steady (kept, lighter) =
    Falls-arrive q n (next_node n st) before st steady kept lighter
Falls-Closer q n before paused steady closer = tt
Falls-Closer q n before raised steady closer = tt
