-- ===== src/Runtime/Spending/Unspent.antt =====
-- vermay/langgraph_runtime/nodes.py: the nodes that leave the counters of model calls and tool calls.
use vermay_agent.Prelude.{
  ◌+◌, refl, false, Option, none, some, List, [], ◌∷◌, length, Bool-cases, Option-cases, inl, inr,
}
use vermay_agent.Runtime.State.{
  AgentState, Call, Decision, Permission, latest_calls, calls_or_none, tool_call_limit,
  loop_step_limit,
}
use vermay_agent.Runtime.Nodes.{
  Input, updated, stop_with, permit_calls, pause_with, clear_pause, input_request,
  approval_required_node, user_input_required_node, tools_node, ask_approvals, pending_approvals,
  decide, gate_decision, gate_calls, weigh, check_permission_node, reject_tool_node,
  reject_permission, answer_with, increment_loop_node, max_loops_node,
}
use vermay_agent.Runtime.Spending.{Keeps}

module _ (st : AgentState) where
  Keeps-weigh :
      (calls : List Call) (all refused waiting : List Decision)
      → Keeps st (updated (weigh calls all refused waiting st))
  unfolding weigh pause_with
  Keeps-weigh calls all (d ∷ ds) waiting = (refl, refl)
  Keeps-weigh calls all [] (d ∷ ds) = (refl, refl)
  Keeps-weigh calls all [] [] = (refl, refl)

  Keeps-gate_calls : (i : Input) (calls : List Call) → Keeps st (updated (gate_calls i calls st))
  unfolding gate_calls
  Keeps-gate_calls i calls = elim (Option-cases i.gate) [
    | inl ungated ↦ rw ungated (refl, refl)
    | inr (gate, gated) ↦ rw gated (Keeps-weigh calls _ _ _)
  ]

  Keeps-permit_calls :
      (i : Input) (calls : List Call) → Keeps st (updated (permit_calls i calls st))
  unfolding permit_calls pause_with stop_with
  Keeps-permit_calls i [] = (refl, refl)
  Keeps-permit_calls i (c ∷ calls) = elim (Option-cases (input_request (c ∷ calls))) [
    | inr (request, h) ↦ rw (h, permit_calls) (refl, refl)
    | inl h ↦ elim (Option-cases (tool_call_limit st i.now (length (c ∷ calls)))) [
      | inr (l, reached) ↦ rw (h, reached, permit_calls) (refl, refl)
      | inl below ↦ rw (h, below, permit_calls) (Keeps-gate_calls i (c ∷ calls))
    ]
  ]

  pub Keeps-check_permission : (i : Input) → Keeps st (check_permission_node i st)
  unfolding check_permission_node stop_with permit_calls gate_calls decide gate_decision
  Keeps-check_permission i = elim (Bool-cases i.cancelled) [
    | inl h ↦ rw h (refl, refl)
    | inr h ↦ rw h (Keeps-permit_calls i (calls_or_none (latest_calls st.messages)))
  ]

  pub Keeps-approval : (i : Input) → Keeps st (approval_required_node i st)
  unfolding approval_required_node clear_pause
  Keeps-approval i =
      elim (Option-cases (
        ask_approvals (pending_approvals st.permission) i.approvals
          (record { approved = false; reason = "approval rejected" }))) [
            | inl h ↦ rw (h, approval_required_node) tt
            | inr (a, h) ↦ rw (h, approval_required_node) (refl, refl)
          ]

  pub Keeps-user_input : (i : Input) → Keeps st (user_input_required_node i st)
  unfolding user_input_required_node clear_pause
  Keeps-user_input i = elim (Option-cases i.user_input) [
    | inl h ↦ rw h tt
    | inr (text, h) ↦ rw h (refl, refl)
  ]

  Keeps-reject_permission : (p : Option Permission) → Keeps st (updated (reject_permission p st))
  unfolding reject_permission answer_with
  Keeps-reject_permission none = (refl, refl)
  Keeps-reject_permission (some p) = (refl, refl)

  pub Keeps-reject_tool : (i : Input) → Keeps st (reject_tool_node i st)
  unfolding reject_tool_node answer_with
  Keeps-reject_tool i = elim (Option-cases st.approval) [
    | inl h ↦ rw h (Keeps-reject_permission st.permission)
    | inr (a, h) ↦ elim (Bool-cases a.approved) [
      | inl agreed ↦ rw (h, agreed) (Keeps-reject_permission st.permission)
      | inr refused ↦ rw (h, refused) (refl, refl)
    ]
  ]

  pub Keeps-tools : (i : Input) → Keeps st (tools_node i st)
  unfolding tools_node
  Keeps-tools i = (refl, refl)

  pub Keeps-increment_loop : (i : Input) → Keeps st (increment_loop_node i st)
  unfolding increment_loop_node stop_with
  Keeps-increment_loop i = elim (Option-cases (loop_step_limit st i.now (st.loop_index + 1))) [
    | inl h ↦ rw h (refl, refl)
    | inr (l, h) ↦ rw h (refl, refl)
  ]

  pub Keeps-max_loops : (i : Input) → Keeps st (max_loops_node i st)
  unfolding max_loops_node stop_with
  Keeps-max_loops i = (refl, refl)
