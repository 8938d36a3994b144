-- ===== src/Runtime/Spending/Steps.antt =====
-- vermay/langgraph_runtime/graph.py: each step of a run pays for what it asks of the model and the tools.
use vermay_agent.Prelude.{ℕ, ◌+◌, ◌≤◌, refl, arith}
use vermay_agent.Runtime.Policy.{ExecutionPolicy}
use vermay_agent.Runtime.State.{
  AgentState, Node, call_model, check_permission, approval_node, user_input_node, reject_tool,
  tools, record_tool_messages, increment_loop, max_loops_node as max_loops_at, end,
}
use vermay_agent.Runtime.Nodes.{Input, NodeResult, updated}
use vermay_agent.Runtime.Graph.{
  Position, at, finished, interrupted, failed, after_node, run_node, step,
}
use vermay_agent.Runtime.Budget.{Within, Inv, Holds, AnswersCalls, reserved}
use vermay_agent.Runtime.Spending.{model_requests, tool_runs, Keeps}
use vermay_agent.Runtime.Spending.Unspent.{
  Keeps-check_permission, Keeps-approval, Keeps-user_input, Keeps-reject_tool, Keeps-increment_loop,
  Keeps-max_loops,
}
use vermay_agent.Runtime.Spending.Paid.{
  Paid, owed, Paid-kept, Paid-call_model, Paid-tools, Paid-record_tool_messages,
}

-- What a position has spent, whatever it has asked for.
abbrev pub Stands : ExecutionPolicy → ℕ → ℕ → Type 0
Stands q m e = (m ≤ q.max_model_calls) × (e ≤ q.max_tool_calls)

-- The one step of a run: what it asks for is paid for after it.
module _ (q : ExecutionPolicy) (m e : ℕ) (i : Input) (st : AgentState) where
  Paid-spare :
      (n : Node) (result : NodeResult)
      → Keeps st result
      → Within q st
      → m ≤ st.model_calls
      → e ≤ st.tool_calls + 0
      → Paid q (m + 0) (e + 0) (after_node n st result)
  Paid-spare n result keeps within hm he =
      Paid-kept q (m + 0) (e + 0) n st result keeps (omega (arith, hm)) (omega (arith, he))
        (omega (arith, hm, within.models), omega (arith, he, within.tools))

  Paid-run_node :
      (n : Node)
      → AnswersCalls i
      → Holds q (at n st)
      → Paid q m e (at n st)
      → Paid q
          (m + model_requests i (at n st))
          (e + tool_runs i (at n st))
          (after_node n st (run_node n i st))
  unfolding run_node Holds Paid model_requests tool_runs
  Paid-run_node call_model answers inv (hm, he) =
      Paid-call_model q m (e + 0) st i inv hm (omega (arith, he))
  Paid-run_node check_permission answers inv (hm, he) =
      Paid-spare check_permission _ (Keeps-check_permission st i) inv.within hm he
  Paid-run_node approval_node answers inv (hm, he) =
      Paid-spare approval_node _ (Keeps-approval st i) inv.within hm he
  Paid-run_node user_input_node answers inv (hm, he) =
      Paid-spare user_input_node _ (Keeps-user_input st i) inv.within hm he
  Paid-run_node reject_tool answers inv (hm, he) =
      Paid-spare reject_tool _ (Keeps-reject_tool st i) inv.within hm he
  Paid-run_node tools answers inv (hm, he) =
      Paid-tools q (m + 0) e st i answers inv (omega (arith, hm)) (omega (arith, he))
  Paid-run_node record_tool_messages answers inv (hm, he) =
      Paid-record_tool_messages q (m + 0) (e + 0) st i (omega (arith, hm)) (omega (arith, he))
  Paid-run_node increment_loop answers inv (hm, he) =
      Paid-spare increment_loop _ (Keeps-increment_loop st i) inv.within hm he
  Paid-run_node max_loops_at answers inv (hm, he) =
      Paid-spare max_loops_at _ (Keeps-max_loops st i) inv.within hm he
  Paid-run_node end answers done (hm, he) =
      Paid-spare end (updated st) (refl, refl) done.within hm he

module _ (q : ExecutionPolicy) (i : Input) where
  pub Paid-step :
      (m e : ℕ) (p : Position)
      → AnswersCalls i
      → Holds q p
      → Paid q m e p
      → Paid q (m + model_requests i p) (e + tool_runs i p) (step i p)
  unfolding step Paid model_requests tool_runs
  Paid-step m e (at n st) answers holds paid = Paid-run_node q m e i st n answers holds paid
  Paid-step m e (finished st) answers holds (hm, he) = (omega (arith, hm), omega (arith, he))
  Paid-step m e (interrupted n st) answers holds (hm, he) = (omega (arith, hm), omega (arith, he))
  Paid-step m e (failed n st) answers holds (hm, he) = (omega (arith, hm), omega (arith, he))

Stands-Inv :
    (q : ExecutionPolicy) (m e : ℕ) (n : Node) (st : AgentState)
    → Inv q n st
    → owed n st ≤ reserved n st
    → Paid q m e (at n st)
    → Stands q m e
unfolding Paid
Stands-Inv q m e n st inv due (hm, he) =
    (omega (arith, hm, inv.within.models), omega (arith, he, due, inv.fits))

pub Stands-Paid :
    (q : ExecutionPolicy) (m e : ℕ) (p : Position) → Holds q p → Paid q m e p → Stands q m e
unfolding Holds Paid reserved
Stands-Paid q m e (at call_model st) inv paid =
    Stands-Inv q m e call_model st inv (omega arith) paid
Stands-Paid q m e (at check_permission st) inv paid =
    Stands-Inv q m e check_permission st inv (omega arith) paid
Stands-Paid q m e (at approval_node st) inv paid =
    Stands-Inv q m e approval_node st inv (omega arith) paid
Stands-Paid q m e (at user_input_node st) inv paid =
    Stands-Inv q m e user_input_node st inv (omega arith) paid
Stands-Paid q m e (at reject_tool st) inv paid =
    Stands-Inv q m e reject_tool st inv (omega arith) paid
Stands-Paid q m e (at tools st) inv paid = Stands-Inv q m e tools st inv (omega arith) paid
Stands-Paid q m e (at record_tool_messages st) inv paid =
    Stands-Inv q m e record_tool_messages st inv (omega arith) paid
Stands-Paid q m e (at increment_loop st) inv paid =
    Stands-Inv q m e increment_loop st inv (omega arith) paid
Stands-Paid q m e (at max_loops_at st) inv paid =
    Stands-Inv q m e max_loops_at st inv (omega arith) paid
Stands-Paid q m e (at end st) done (hm, he) =
    (omega (arith, hm, done.within.models), omega (arith, he, done.within.tools))
Stands-Paid q m e (finished st) done stands = stands
Stands-Paid q m e (interrupted n st) inv stands = stands
Stands-Paid q m e (failed n st) inv stands = stands
