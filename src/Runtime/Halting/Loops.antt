-- ===== src/Runtime/Halting/Loops.antt =====
-- vermay/langgraph_runtime/graph.py: how many nodes a run enters.
use vermay_agent.Prelude.{
  ℕ, zero, suc, ◌+◌, ◌*◌, ◌≤◌, ◌≡◌, refl, ap, Bool, true, false, none, is_some, List, ltb, arith,
  Bool-cases, Option-cases, inl, inr,
}
use vermay_agent.Runtime.Policy.{ExecutionPolicy, ExecutionLimit, is_policy}
use vermay_agent.Runtime.State.{
  AgentState, Message, Node, call_model, check_permission, approval_node, user_input_node,
  reject_tool, tools, record_tool_messages, increment_loop, max_loops_node as max_loops_at, end,
  build_initial_state, policy_from_state, policy_of, loop_step_limit, route_loop_limit,
}
use vermay_agent.Runtime.Nodes.{
  Input, updated, reject_tool_node, increment_loop_node, max_loops_node, stop_with,
}
use vermay_agent.Runtime.Graph.{
  Position, at, finished, interrupted, failed, after_node, next_node, run_node, step, run,
}
use vermay_agent.Runtime.Budget.{below_step_limit}
use vermay_agent.Runtime.Checkpoint.{from_dict-to_dict}
use vermay_agent.Runtime.Halting.{remaining, Steady, Falls, Falls-Closer}
use vermay_agent.Runtime.Halting.Updates.{
  Closer-call_model, Closer-check_permission, Closer-approval, Closer-user_input, Closer-tools,
  Closer-record_tool_messages,
}

module _ (q : ExecutionPolicy) (st : AgentState) (steady : Steady q st) where
  Steady-next :
      st.loop_index + 1 ≤ q.max_loop_steps
      → Steady q (record st { loop_index = st.loop_index + 1; permission = none })
  unfolding policy_from_state
  Steady-next below = record { policy = steady.policy; loops = below }

  Falls-next :
      st.loop_index + 1 ≤ q.max_loop_steps
      → Falls q (remaining q (at increment_loop st)) (
          after_node increment_loop st
            (updated (record st { loop_index = st.loop_index + 1; permission = none })))
  unfolding after_node next_node route_loop_limit Falls
  Falls-next below = elim (Bool-cases (is_some st.stop_reason)) [
    | inl stopped ↦ rw stopped tt
    | inr clear ↦ elim (Bool-cases (ltb st.max_loops (st.loop_index + 1))) [
      | inl over ↦ rw (clear, over) (Steady-next below, omega (arith, below))
      | inr within ↦ rw (clear, within) (Steady-next below, omega (arith, below))
    ]
  ]

  Falls-past :
      (l : ExecutionLimit)
      → Falls q (remaining q (at increment_loop st)) (
          after_node increment_loop st (
            updated
              (stop_with l (record st { loop_index = st.loop_index + 1; permission = none }))))
  unfolding after_node next_node route_loop_limit Falls stop_with
  Falls-past l = tt

  Falls-increment_loop :
      (i : Input)
      → Falls q
          (remaining q (at increment_loop st))
          (after_node increment_loop st (increment_loop_node i st))
  unfolding increment_loop_node
  Falls-increment_loop i = elim (Option-cases (loop_step_limit st i.now (st.loop_index + 1))) [
    | inl h ↦ rw h (
        Falls-next (
          omega (
            arith,
            below_step_limit st i.now (st.loop_index + 1) h,
            ap (λ p. p.max_loop_steps) steady.policy,
          )))
    | inr (l, h) ↦ rw h (Falls-past l)
  ]

  Falls-run_node :
      (i : Input) (n : Node) → Falls q (remaining q (at n st)) (after_node n st (run_node n i st))
  unfolding run_node after_node next_node Falls reject_tool_node max_loops_node
  Falls-run_node i call_model =
      Falls-Closer q call_model st (run_node call_model i st) steady (Closer-call_model st i)
  Falls-run_node i check_permission =
      Falls-Closer q check_permission st (run_node check_permission i st) steady
        (Closer-check_permission st i)
  Falls-run_node i approval_node =
      Falls-Closer q approval_node st (run_node approval_node i st) steady (Closer-approval st i)
  Falls-run_node i user_input_node =
      Falls-Closer q user_input_node st (run_node user_input_node i st) steady
        (Closer-user_input st i)
  Falls-run_node i tools = Falls-Closer q tools st (run_node tools i st) steady (Closer-tools st i)
  Falls-run_node i record_tool_messages =
      Falls-Closer q record_tool_messages st (run_node record_tool_messages i st) steady
        (Closer-record_tool_messages st i)
  Falls-run_node i increment_loop = Falls-increment_loop i
  Falls-run_node i reject_tool = tt
  Falls-run_node i max_loops_at = tt
  Falls-run_node i end = tt

-- A position from which no node runs: an end, an interrupt or an exception.
abbrev pub halted : Position → Bool
halted (at _ _) = false
halted _ = true

run-halted :
    (fuel : ℕ) (world : ℕ → Input) (k : ℕ) (p : Position)
    → halted p ≡ true
    → halted (run fuel world k p) ≡ true
unfolding run step
run-halted zero world k p h = h
run-halted (suc fuel) world k (at n st) h = absurd (ground (arith, h))
run-halted (suc fuel) world k (finished st) h = run-halted fuel world (k + 1) (finished st) h
run-halted (suc fuel) world k (interrupted n st) h =
    run-halted fuel world (k + 1) (interrupted n st) h
run-halted (suc fuel) world k (failed n st) h = run-halted fuel world (k + 1) (failed n st) h

-- With as much fuel as nodes may remain, the run halts.
halts :
    (q : ExecutionPolicy) (fuel : ℕ) (world : ℕ → Input) (k : ℕ) (p : Position) (bound : ℕ)
    → Falls q bound p
    → bound ≤ fuel + 1
    → halted (run fuel world k p) ≡ true
unfolding run step Falls
halts q zero world k (at n st) bound (steady, falls) enough = absurd (omega (arith, falls, enough))
halts q (suc fuel) world k (at n st) bound (steady, falls) enough =
    halts q fuel world (k + 1) (after_node n st (run_node n (world k) st)) (remaining q (at n st))
      (Falls-run_node q st steady (world k) n) (omega (arith, falls, enough))
halts q fuel world k (finished st) bound falls enough = run-halted fuel world k (finished st) refl
halts q fuel world k (interrupted n st) bound falls enough =
    run-halted fuel world k (interrupted n st) refl
halts q fuel world k (failed n st) bound falls enough = run-halted fuel world k (failed n st) refl

-- A run of the graph from the initial state, for a policy that passes its checks, halts after at most
-- six nodes for each loop and six more: it has ended, waits at an interrupt, or has raised, whatever
-- the model, the gate, the tools and the clock do.
pub run_halts :
    (p : ExecutionPolicy) (messages : List Message) (started : ℕ) (world : ℕ → Input)
    → is_policy p ≡ true
    → halted (
        run
          (6 * p.max_loop_steps + 6)
          world
          0
          (at call_model (build_initial_state messages p started)))
      ≡ true
unfolding Falls build_initial_state policy_from_state policy_of is_policy
run_halts p messages started world valid =
    halts p (6 * p.max_loop_steps + 6) world 0 _ (6 * p.max_loop_steps + 7)
      (record { policy = from_dict-to_dict p valid; loops = ground (arith, valid) }, omega arith)
      (omega arith)
