-- ===== src/Runtime/Bounds.antt =====
-- vermay/langgraph_runtime/graph.py: a whole run, what it spends and how it ends.
use mathlib.Core.Path.{subst}
use vermay_agent.Prelude.{ℕ, zero, suc, ◌+◌, ◌≤◌, ◌≡◌, refl, true, false, is_some, List, arith}
use vermay_agent.Runtime.Policy.{ExecutionPolicy, is_policy}
use vermay_agent.Runtime.State.{
  AgentState, Message, Node, call_model, check_permission, approval_node, user_input_node,
  reject_tool, tools, record_tool_messages, increment_loop, max_loops_node as max_loops_at, end,
  build_initial_state, policy_from_state, policy_of,
}
use vermay_agent.Runtime.Nodes.{Input}
use vermay_agent.Runtime.Graph.{
  Position, at, finished, interrupted, failed, after_node, next_node, run_node, step, run,
}
use vermay_agent.Runtime.Checkpoint.{from_dict-to_dict}
use vermay_agent.Runtime.Budget.{Inv, Holds, AnswersCalls, reserved}
use vermay_agent.Runtime.Budget.Model.{Holds-call_model}
use vermay_agent.Runtime.Budget.Gate.{Holds-check_permission}
use vermay_agent.Runtime.Budget.Answers.{
  Holds-approval, Holds-user_input, Holds-reject_tool, Holds-max_loops,
}
use vermay_agent.Runtime.Budget.Rounds.{
  Holds-tools, Holds-record_tool_messages, Holds-increment_loop,
}
use vermay_agent.Runtime.Spending.{model_requests, tool_runs, over_run}
use vermay_agent.Runtime.Spending.Paid.{Paid}
use vermay_agent.Runtime.Spending.Steps.{Stands, Paid-step, Stands-Paid}

module _ (q : ExecutionPolicy) where
  Holds-run_node :
      (i : Input) (n : Node) (st : AgentState)
      → AnswersCalls i
      → Holds q (at n st)
      → Holds q (after_node n st (run_node n i st))
  unfolding run_node Holds after_node next_node
  Holds-run_node i call_model st answers holds = Holds-call_model q st i holds
  Holds-run_node i check_permission st answers holds = Holds-check_permission q st holds i
  Holds-run_node i approval_node st answers holds = Holds-approval q st i holds
  Holds-run_node i user_input_node st answers holds = Holds-user_input q st i holds
  Holds-run_node i reject_tool st answers holds = Holds-reject_tool q st i holds
  Holds-run_node i tools st answers holds = Holds-tools q st i answers holds
  Holds-run_node i record_tool_messages st answers holds = Holds-record_tool_messages q st i holds
  Holds-run_node i increment_loop st answers holds = Holds-increment_loop q st i holds
  Holds-run_node i max_loops_at st answers holds = Holds-max_loops q st i holds
  Holds-run_node i end st answers holds = holds

  Holds-step : (i : Input) (p : Position) → AnswersCalls i → Holds q p → Holds q (step i p)
  unfolding step
  Holds-step i (at n st) answers holds = Holds-run_node i n st answers holds
  Holds-step i (finished st) answers holds = holds
  Holds-step i (interrupted n st) answers holds = holds
  Holds-step i (failed n st) answers holds = holds

  pub Holds-run :
      (fuel : ℕ) (world : ℕ → Input) (k : ℕ) (p : Position)
      → ((j : ℕ) → AnswersCalls (world j))
      → Holds q p
      → Holds q (run fuel world k p)
  unfolding run
  Holds-run zero world k p answers holds = holds
  Holds-run (suc fuel) world k p answers holds =
      Holds-run fuel world (k + 1) (step (world k) p) answers
        (Holds-step (world k) p (answers k) holds)

abbrev pub state_of : Position → AgentState
state_of (at n st) = st
state_of (finished st) = st
state_of (interrupted n st) = st
state_of (failed n st) = st

Inv-initial :
    (p : ExecutionPolicy) (messages : List Message) (started : ℕ)
    → is_policy p ≡ true
    → Inv p call_model (build_initial_state messages p started)
unfolding build_initial_state policy_from_state policy_of reserved is_policy
Inv-initial p messages started valid = record {
  within = record { policy = from_dict-to_dict p valid; models = omega arith; tools = omega arith };
  fits = omega arith;
  loops = ground (arith, valid);
  calls = λ h. absurd (ground (arith, h));
  open_ = refl;
  fresh = λ h. refl;
}

module _ (q : ExecutionPolicy) (world : ℕ → Input)
    (answers : (j : ℕ) → AnswersCalls (world j)) where
  Stands-run :
      (fuel k m e : ℕ) (p : Position)
      → Holds q p
      → Paid q m e p
      → Stands q
          (m + over_run model_requests fuel world k p)
          (e + over_run tool_runs fuel world k p)
  unfolding over_run
  Stands-run zero k m e p holds paid =
      let (hm, he) = Stands-Paid q m e p holds paid in (omega (arith, hm), omega (arith, he))
  Stands-run (suc fuel) k m e p holds paid =
      let now = world k in
      let (hm, he) =
        Stands-run fuel (k + 1) (m + model_requests now p) (e + tool_runs now p) (step now p)
          (Holds-step q now p (answers k) holds) (Paid-step q now m e p (answers k) holds paid) in
      (omega (arith, hm), omega (arith, he))

-- The loop of a position that the limits hold at.
loops-Holds :
    (q : ExecutionPolicy) (p : Position)
    → Holds q p
    → (state_of p).loop_index ≤ q.max_loop_steps + 1
unfolding Holds
loops-Holds q (at call_model st) inv = omega (arith, inv.loops)
loops-Holds q (at check_permission st) inv = omega (arith, inv.loops)
loops-Holds q (at approval_node st) inv = omega (arith, inv.loops)
loops-Holds q (at user_input_node st) inv = omega (arith, inv.loops)
loops-Holds q (at reject_tool st) inv = omega (arith, inv.loops)
loops-Holds q (at tools st) inv = omega (arith, inv.loops)
loops-Holds q (at record_tool_messages st) inv = omega (arith, inv.loops)
loops-Holds q (at increment_loop st) inv = omega (arith, inv.loops)
loops-Holds q (at max_loops_at st) inv = omega (arith, inv.loops)
loops-Holds q (at end st) done = done.loops
loops-Holds q (finished st) done = done.loops
loops-Holds q (interrupted n st) inv = omega (arith, inv.loops)
loops-Holds q (failed n st) inv = omega (arith, inv.loops)

pub Holds-initial_run :
    (p : ExecutionPolicy) (messages : List Message) (started : ℕ) (world : ℕ → Input)
    → is_policy p ≡ true
    → ((j : ℕ) → AnswersCalls (world j))
    → (fuel : ℕ)
    → Holds p (run fuel world 0 (at call_model (build_initial_state messages p started)))
unfolding Holds
Holds-initial_run p messages started world valid answers fuel =
    Holds-run p fuel world 0 (at call_model (build_initial_state messages p started)) answers
      (Inv-initial p messages started valid)

-- At the permission check no permission of an earlier loop is left.
pub fresh_at_check :
    (p : ExecutionPolicy) (st : AgentState)
    → Holds p (at check_permission st)
    → is_some st.permission ≡ false
unfolding Holds
fresh_at_check p st inv = inv.fresh refl

reason_at_end :
    (p : ExecutionPolicy) (st : AgentState) → Holds p (finished st) → is_some st.stop_reason ≡ true
unfolding Holds
reason_at_end p st done = done.reason

-- The start of a run.
abbrev pub initial : List Message → ExecutionPolicy → ℕ → Position
initial messages p started = at call_model (build_initial_state messages p started)

-- A run of the graph from the initial state for a policy that passes its checks, whatever the model,
-- the gate, the clock and the answers to interrupts do, as long as the tools answer each call with
-- one message: over any number of nodes the requests to the model, failed ones and those cut by a
-- limit included, are no more than the policy allows, no more tool calls are handed to the tools than
-- it allows, and the run is at most one loop past its last.
pub run_within_budget :
    (p : ExecutionPolicy) (messages : List Message) (started : ℕ) (world : ℕ → Input)
    → is_policy p ≡ true
    → ((j : ℕ) → AnswersCalls (world j))
    → (fuel : ℕ)
    → (over_run model_requests fuel world 0 (initial messages p started) ≤ p.max_model_calls)
      × (over_run tool_runs fuel world 0 (initial messages p started) ≤ p.max_tool_calls)
      × ((state_of (run fuel world 0 (initial messages p started))).loop_index
          ≤ p.max_loop_steps + 1)
unfolding Holds Paid
run_within_budget p messages started world valid answers fuel =
    let (models, tool_calls) =
      Stands-run p world answers fuel 0 0 0 (initial messages p started)
        (Inv-initial p messages started valid) (omega arith, omega arith) in
    (
      omega (arith, models),
      omega (arith, tool_calls),
      loops-Holds p _ (Holds-initial_run p messages started world valid answers fuel),
    )

-- A run of the graph from the initial state for a policy that passes its checks, whose tools answer
-- each call with one message, ends only with a reason for its stop.
pub finished_with_reason :
    (p : ExecutionPolicy) (messages : List Message) (started : ℕ) (world : ℕ → Input)
    → is_policy p ≡ true
    → ((j : ℕ) → AnswersCalls (world j))
    → (fuel : ℕ) (st : AgentState)
    → run fuel world 0 (at call_model (build_initial_state messages p started)) ≡ finished st
    → is_some st.stop_reason ≡ true
finished_with_reason p messages started world valid answers fuel st h =
    reason_at_end p st
      (subst (Holds p) h (Holds-initial_run p messages started world valid answers fuel))
