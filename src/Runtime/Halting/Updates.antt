-- ===== src/Runtime/Halting/Updates.antt =====
-- vermay/langgraph_runtime/nodes.py: each node but the one that begins a loop keeps the policy and the
-- loop, and leads closer to its end.
use vermay_agent.Prelude.{
  String, ◌<◌, ◌≡◌, refl, false, ◌&&◌, Option, none, some, List, [], ◌∷◌, map, length, arith,
  Bool-cases, Option-cases, inl, inr,
}
use vermay_agent.Runtime.Policy.{ExecutionLimit, ExecutionStopReason}
use vermay_agent.Runtime.State.{
  AgentState, Call, Approval, PermissionStatus, allowed, denied, approval_required, input_required,
  budget_exhausted, Observation, Decision, call_model, check_permission, approval_node,
  user_input_node, tools, record_tool_messages, latest_calls, calls_or_none, is_nil,
  policy_from_state, tool_call_limit, route_after_model, route_after_permission,
  route_after_approval,
}
use vermay_agent.Runtime.Nodes.{
  Input, ModelAnswer, provider_error, responded, updated, stop_with, model_limit, take_response,
  answer_of, permit_calls, permit, pause_with, clear_pause, input_request, approval_required_node,
  user_input_required_node, tools_node, record_tool_messages_node, count_observations,
  normalize_tool_observation, stop_if, call_model_node, ask_approvals, pending_approvals, decide,
  gate_decision, gate_calls, weigh, check_permission_node, latest_tool_messages,
}
use vermay_agent.Runtime.Asking.{asks_not, asks_once}
use vermay_agent.Runtime.Graph.{next_node}
use vermay_agent.Runtime.Halting.{weight, Kept, Closer}

route_after_model-weight : (st : AgentState) → weight (route_after_model st) < 5
unfolding route_after_model
route_after_model-weight st = ground arith

route_after_permission-weight : (st : AgentState) → weight (route_after_permission st) < 4
unfolding route_after_permission
route_after_permission-weight st = ground arith

route_after_approval-weight : (st : AgentState) → weight (route_after_approval st) < 3
unfolding route_after_approval
route_after_approval-weight st = ground arith

Kept-stop_with :
    (l : ExecutionLimit) (before after : AgentState)
    → Kept before after
    → Kept before (stop_with l after)
unfolding stop_with policy_from_state
Kept-stop_with l before after kept = record { policy = kept.policy; loops = kept.loops }

Kept-pause_with :
    (r : ExecutionStopReason) (id : String) (before after : AgentState)
    → Kept before after
    → Kept before (pause_with r id after)
unfolding pause_with policy_from_state
Kept-pause_with r id before after kept = record { policy = kept.policy; loops = kept.loops }

module _ (st : AgentState) where
  Kept-take_response :
      (content : String) (calls : List Call) → Kept st (take_response content calls st)
  unfolding take_response policy_from_state
  Kept-take_response content [] = record { policy = refl; loops = refl }
  Kept-take_response content (c ∷ calls) = record { policy = refl; loops = refl }

  Closer-model : (after : AgentState) → Kept st after → Closer call_model st (updated after)
  unfolding next_node
  Closer-model after kept = (kept, route_after_model-weight after)

  Closer-answer :
      (i : Input) (m : ModelAnswer) → i.model ≡ m → Closer call_model st (answer_of i st)
  unfolding answer_of
  Closer-answer i provider_error h = rw h tt
  Closer-answer i (responded content calls) h =
      elim (Bool-cases (is_nil calls && i.declares_call)) [
        | inl narrated ↦ rw (h, narrated) tt
        | inr fine ↦ rw (h, fine) (Closer-model _ (Kept-take_response content calls))
      ]

  Kept-refl : Kept st st
  Kept-refl = record { policy = refl; loops = refl }

  pub Closer-call_model : (i : Input) → Closer call_model st (call_model_node i st)
  Closer-call_model i = elim (Option-cases (model_limit i.cancelled st i.now)) [
    | inr (l, h) ↦ rw (asks_not i st l h) (Closer-model _ (Kept-stop_with l st st Kept-refl))
    | inl before ↦ elim (Option-cases (model_limit i.cancelled_after st i.now_after)) [
      | inr (l, h) ↦
          rw (asks_once i st before) (rw h (Closer-model _ (Kept-stop_with l st st Kept-refl)))
      | inl after ↦ rw (asks_once i st before) (rw after (Closer-answer i i.model refl))
    ]
  ]

  Kept-permit :
      (s : PermissionStatus) (reason : String) (call : Option Call) (calls : List Call)
      (decisions : List Decision)
      → Kept st (permit s reason call calls decisions st)
  unfolding policy_from_state
  Kept-permit s reason call calls decisions = record { policy = refl; loops = refl }

  Kept-weigh :
      (calls : List Call) (all refused waiting : List Decision)
      → Kept st (weigh calls all refused waiting st)
  unfolding weigh
  Kept-weigh calls all (d ∷ ds) waiting = Kept-permit denied d.reason (some d.call) calls all
  Kept-weigh calls all [] (d ∷ ds) =
      Kept-pause_with _ _ st _ (Kept-permit approval_required d.reason (some d.call) calls all)
  Kept-weigh calls all [] [] = Kept-permit allowed "all tool calls allowed" none calls all

  Kept-gate_calls : (i : Input) (calls : List Call) → Kept st (gate_calls i calls st)
  unfolding gate_calls decide gate_decision
  Kept-gate_calls i calls = elim (Option-cases i.gate) [
    | inl ungated ↦ rw ungated (Kept-permit allowed _ none calls _)
    | inr (gate, gated) ↦ rw gated (Kept-weigh calls _ _ _)
  ]

  Kept-permit_calls : (i : Input) (calls : List Call) → Kept st (permit_calls i calls st)
  unfolding permit_calls
  Kept-permit_calls i [] = Kept-permit denied "missing tool call" none [] []
  Kept-permit_calls i (c ∷ calls) = elim (Option-cases (input_request (c ∷ calls))) [
    | inr (request, h) ↦
        rw (h, permit_calls) (Kept-pause_with _ _ st _ (Kept-permit input_required _ _ _ _))
    | inl h ↦ elim (Option-cases (tool_call_limit st i.now (length (c ∷ calls)))) [
      | inr (l, reached) ↦
          rw (h, reached, permit_calls)
            (Kept-stop_with l st _ (Kept-permit budget_exhausted _ _ _ _))
      | inl below ↦ rw (h, below, permit_calls) (Kept-gate_calls i (c ∷ calls))
    ]
  ]

  Closer-decided : (after : AgentState) → Kept st after → Closer check_permission st (updated after)
  unfolding next_node
  Closer-decided after kept = (kept, route_after_permission-weight after)

  pub Closer-check_permission :
      (i : Input) → Closer check_permission st (check_permission_node i st)
  unfolding check_permission_node permit_calls gate_calls decide gate_decision
  Closer-check_permission i = elim (Bool-cases i.cancelled) [
    | inl h ↦ rw h (Closer-decided _ (Kept-stop_with _ st st Kept-refl))
    | inr h ↦
        rw h (Closer-decided _ (Kept-permit_calls i (calls_or_none (latest_calls st.messages))))
  ]

  Closer-answered :
      (a : Approval)
      → Closer approval_node st (updated (clear_pause (record st { approval = some a })))
  unfolding next_node clear_pause policy_from_state
  Closer-answered a = (record { policy = refl; loops = refl }, route_after_approval-weight _)

  pub Closer-approval : (i : Input) → Closer approval_node st (approval_required_node i st)
  unfolding approval_required_node
  Closer-approval i =
      elim (Option-cases (
        ask_approvals (pending_approvals st.permission) i.approvals
          (record { approved = false; reason = "approval rejected" }))) [
            | inl h ↦ rw (h, approval_required_node) tt
            | inr (a, h) ↦ rw (h, approval_required_node) (Closer-answered a)
          ]

  pub Closer-user_input : (i : Input) → Closer user_input_node st (user_input_required_node i st)
  unfolding user_input_required_node next_node clear_pause policy_from_state
  Closer-user_input i = elim (Option-cases i.user_input) [
    | inl h ↦ rw h tt
    | inr (text, h) ↦ rw h (record { policy = refl; loops = refl }, omega arith)
  ]

  pub Closer-tools : (i : Input) → Closer tools st (tools_node i st)
  unfolding tools_node next_node policy_from_state
  Closer-tools i = (record { policy = refl; loops = refl }, omega arith)

  Kept-counted : (observed : List Observation) → Kept st (count_observations observed st)
  unfolding count_observations policy_from_state
  Kept-counted observed = record { policy = refl; loops = refl }

  Kept-stop_if :
      (l : Option ExecutionLimit) (after : AgentState) → Kept st after → Kept st (stop_if l after)
  Kept-stop_if none after kept = kept
  Kept-stop_if (some l) after kept = Kept-stop_with l st after kept

  pub Closer-record_tool_messages :
      (i : Input) → Closer record_tool_messages st (record_tool_messages_node i st)
  unfolding record_tool_messages_node next_node
  Closer-record_tool_messages i = (
    Kept-stop_if _ _ (
        Kept-counted
          (map (normalize_tool_observation st.loop_index) (latest_tool_messages st.messages))),
    omega arith,
  )
