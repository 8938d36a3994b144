-- ===== src/Runtime/Budget/Gate.antt =====
-- vermay/langgraph_runtime/nodes.py: what the permission check, the interrupts and the rejection keep
-- of the limits.
use vermay_agent.Prelude.{
  String, ◌+◌, ◌≤◌, ◌≡◌, refl, ap, Bool, true, false, Option, none, some, List, [], ◌∷◌, map,
  select, length, arith, Bool-cases, Option-cases, inl, inr,
}
use vermay_agent.Runtime.Policy.{
  ExecutionStopReason, input_required as input_stop, approval_required as approval_stop,
  ExecutionPolicy, ExecutionLimit,
}
use vermay_agent.Runtime.State.{
  AgentState, Call, Permission, Decision, PermissionStatus, allowed, denied, approval_required,
  input_required, budget_exhausted, check_permission, end, latest_calls, calls_or_none,
  policy_from_state, tool_call_limit, route_after_permission,
}
use vermay_agent.Runtime.Nodes.{
  Input, updated, stop_with, permit_calls, permit, pause_with, input_request, decide, gate_decision,
  status_is, gate_calls, weigh, check_permission_node,
}
use vermay_agent.Runtime.Graph.{after_node, next_node}
use vermay_agent.Runtime.Messages.{latest_calls-ends}
use vermay_agent.Runtime.Budget.{Inv, below_tool_limit, Holds, Done-stop_with}
use vermay_agent.Runtime.Budget.Routed.{Ready, Holds-routed}

-- The statuses that let the calls go on.
abbrev lets_as : PermissionStatus → Bool
lets_as allowed = true
lets_as approval_required = true
lets_as _ = false

-- Room in the budget for the calls of the model.
abbrev Room : ExecutionPolicy → AgentState → Type 0
Room q st = st.tool_calls + length (calls_or_none (latest_calls st.messages)) ≤ q.max_tool_calls

module _ (q : ExecutionPolicy) (st : AgentState) (inv : Inv q check_permission st) where
  Ready-permit :
      (s : PermissionStatus) (reason : String) (call : Option Call) (calls : List Call)
      (decisions : List Decision)
      → (lets_as s ≡ true → Room q st)
      → Ready q (permit s reason call calls decisions st) (record {
        status = s;
        reason = reason;
        tool_call = call;
        tool_calls = calls;
        decisions = decisions;
      })
  unfolding policy_from_state
  Ready-permit s reason call calls decisions room = record {
    within = record {
      policy = inv.within.policy;
      models = inv.within.models;
      tools = inv.within.tools;
    };
    room = room;
    loops = inv.loops;
    calls = inv.calls refl;
    open_ = inv.open_;
    decided = refl;
  }

  Ready-paused :
      (st2 : AgentState) (p : Permission) (r : ExecutionStopReason) (id : String)
      → Ready q st2 p
      → Ready q (pause_with r id st2) p
  unfolding pause_with policy_from_state
  Ready-paused st2 p r id ready = record {
    within = record {
      policy = ready.within.policy;
      models = ready.within.models;
      tools = ready.within.tools;
    };
    room = ready.room;
    loops = ready.loops;
    calls = ready.calls;
    open_ = ready.open_;
    decided = ready.decided;
  }

  Ready-stopped :
      (st2 : AgentState) (p : Permission) (l : ExecutionLimit)
      → Ready q st2 p
      → Ready q (stop_with l st2) p
  unfolding stop_with policy_from_state
  Ready-stopped st2 p l ready = record {
    within = record {
      policy = ready.within.policy;
      models = ready.within.models;
      tools = ready.within.tools;
    };
    room = ready.room;
    loops = ready.loops;
    calls = ready.calls;
    open_ = ready.open_;
    decided = ready.decided;
  }

  Ready-weigh :
      (calls : List Call) (all refused waiting : List Decision)
      → Room q st
      → (p : Permission) × Ready q (weigh calls all refused waiting st) p
  unfolding weigh
  Ready-weigh calls all (d ∷ ds) waiting room =
      (_, Ready-permit denied d.reason (some d.call) calls all (λ h. room))
  Ready-weigh calls all [] (d ∷ ds) room = (
    _,
    Ready-paused _ _ approval_stop d.call.id
        (Ready-permit approval_required d.reason (some d.call) calls all (λ h. room)),
  )
  Ready-weigh calls all [] [] room =
      (_, Ready-permit allowed "all tool calls allowed" none calls all (λ h. room))

  Ready-gate_calls :
      (i : Input) (calls : List Call)
      → Room q st
      → (p : Permission) × Ready q (gate_calls i calls st) p
  unfolding gate_calls decide gate_decision
  Ready-gate_calls i calls room = elim (Option-cases i.gate) [
    | inl ungated ↦ rw ungated (
      _,
      Ready-permit allowed "no permission gate configured" none calls
          (map (decide i allowed "no permission gate configured") calls) (λ h. room),
    )
    | inr (gate, gated) ↦
        let decisions = map (gate_decision i gate) calls in
        rw gated (
          Ready-weigh calls decisions (select (status_is denied) decisions)
            (select (status_is approval_required) decisions) room)
  ]

  Ready-permit_calls :
      (i : Input) (calls : List Call)
      → latest_calls st.messages ≡ some calls
      → (p : Permission) × Ready q (permit_calls i calls st) p
  unfolding permit_calls
  Ready-permit_calls i [] latest =
      (_, Ready-permit denied "missing tool call" none [] [] (λ h. absurd (ground (arith, h))))
  Ready-permit_calls i (c ∷ calls) latest = elim (Option-cases (input_request (c ∷ calls))) [
    | inr (request, h) ↦
        rw (h, permit_calls)
          (
            _,
            Ready-paused _ _ input_stop request.id (
                Ready-permit input_required "the model requires additional user input"
                  (some request) (c ∷ calls) [] (λ h. absurd (ground (arith, h)))),
          )
    | inl h ↦ elim (Option-cases (tool_call_limit st i.now (length (c ∷ calls)))) [
      | inr (l, reached) ↦
          rw (h, reached, permit_calls)
            (
              _,
              Ready-stopped _ _ l (
                  Ready-permit budget_exhausted "" none (c ∷ calls) []
                    (λ h. absurd (ground (arith, h)))),
            )
      | inl below ↦
          rw (h, below, permit_calls)
            (Ready-gate_calls i (c ∷ calls) (
              rw latest (
                omega (
                  arith,
                  below_tool_limit st i.now (length (c ∷ calls)) below,
                  ap (λ p. p.max_tool_calls) inv.within.policy,
                ))))
    ]
  ]

  Holds-decided :
      (i : Input) (calls : List Call)
      → latest_calls st.messages ≡ some calls
      → Holds q (after_node check_permission st (updated (permit_calls i calls st)))
  unfolding after_node next_node
  Holds-decided i calls latest =
      let (p, ready) = Ready-permit_calls i calls latest in
      Holds-routed q (permit_calls i calls st) p p.status refl ready

  route_stopped :
      (l : ExecutionLimit) → st.permission ≡ none → route_after_permission (stop_with l st) ≡ end
  unfolding route_after_permission stop_with
  route_stopped l h = rw h refl

  Holds-cancelled :
      (l : ExecutionLimit) → Holds q (after_node check_permission st (updated (stop_with l st)))
  unfolding after_node next_node Holds
  Holds-cancelled l = elim (Option-cases st.permission) [
    | inl h ↦ rw (route_stopped l h) (Done-stop_with q st check_permission l inv)
    | inr (p, h) ↦ absurd (ground (arith, h, inv.fresh refl))
  ]

  pub Holds-check_permission :
      (i : Input) → Holds q (after_node check_permission st (check_permission_node i st))
  unfolding check_permission_node permit_calls gate_calls decide gate_decision
  Holds-check_permission i = elim (Bool-cases i.cancelled) [
    | inl h ↦ rw h (Holds-cancelled _)
    | inr h ↦
        let (c, calls, latest) = latest_calls-ends st.messages (inv.calls refl) in
        rw (h, latest) (Holds-decided i (c ∷ calls) latest)
  ]
