-- ===== src/Runtime/Gated.antt =====
-- vermay/langgraph_runtime/nodes.py and routing.py: how a call that the gate holds may reach the tools.
use mathlib.Core.Path.{subst}
use vermay_agent.Prelude.{
  if◌then◌else◌, ◌≡◌, refl, sym, Bool, true, false, not, ◌||◌, ◌&&◌, some, is_some, List, [], ◌∷◌,
  ◌++◌, map, select, length, arith, Bool-cases, Option-cases, inl, inr,
}
use vermay_agent.Runtime.Policy.{ExecutionLimit, canceled, control_plane_cancellation}
use vermay_agent.Runtime.State.{
  AgentState, Call, Approval, Decision, Permission, denied, approval_required, check_permission,
  approval_node, user_input_node, reject_tool, tools, end, latest_calls, calls_or_none,
  tool_call_limit, route_after_permission, route_after_approval,
}
use vermay_agent.Runtime.Nodes.{
  Input, GateDecision, updated, stop_with, permit_calls, pause_with, clear_pause, input_request,
  decide, gate_decision, gate_status, attach_reference, status_is, gate_calls, weigh,
  check_permission_node, ask_approvals, pending_approvals, approval_required_node,
  user_input_required_node, reject_tool_node,
}
use vermay_agent.Runtime.Graph.{
  Position, at, finished, arrive, after_node, next_node, run_node, step,
}

-- The next node is the one that runs the tools.
abbrev pub runs_tools : Position → Bool
runs_tools (at tools st) = true
runs_tools _ = false

-- Each decision has an answer, in their order, and it approves.
unfoldable pub all_approved : List Decision → List Approval → Bool
all_approved [] answers = true
all_approved (d ∷ ds) [] = false
all_approved (d ∷ ds) (a ∷ answers) = let rest = all_approved ds answers in a.approved && rest

ask_approvals-approved :
    (ds : List Decision) (answers : List Approval) (last a : Approval)
    → ask_approvals ds answers last ≡ some a
    → a.approved ≡ true
    → all_approved ds answers ≡ true
unfolding ask_approvals all_approved
ask_approvals-approved [] answers last a h agreed = refl
ask_approvals-approved (d ∷ ds) [] last a h agreed = absurd (ground (arith, h))
ask_approvals-approved (d ∷ ds) (b ∷ answers) last a h agreed = elim (Bool-cases b.approved) [
  | inl fine ↦
      ground (arith, fine, ask_approvals-approved ds answers b a (ground (arith, h, fine)) agreed)
  | inr refused ↦ absurd (ground (arith, h, refused, agreed))
]

-- The decision on a call that the gate holds is to wait or, if the ledger blocks it, to refuse.
held_decision :
    (i : Input) (gate : Call → GateDecision) (c : Call)
    → gate_status (gate c) ≡ approval_required
    → status_is denied (gate_decision i gate c)
        || status_is approval_required (gate_decision i gate c)
      ≡ true
unfolding gate_decision decide attach_reference
held_decision i gate c held = ground (arith, held)

held_among :
    (i : Input) (gate : Call → GateDecision) (c : Call) (before after : List Call)
    → gate_status (gate c) ≡ approval_required
    → select (status_is denied) (map (gate_decision i gate) (before ++ c ∷ after)) ≡ []
    → select (status_is approval_required) (map (gate_decision i gate) (before ++ c ∷ after)) ≡ []
    → true ≡ false
held_among i gate c [] after held none_refused none_waits =
    ground (arith, held_decision i gate c held, none_refused, none_waits)
held_among i gate c (b ∷ before) after held none_refused none_waits =
    held_among i gate c before after held (ground (arith, none_refused))
      (ground (arith, none_waits))

-- Where a run stands after the permission check: not at the tools, nor there a node later unless each
-- decision that waits has been approved.
abbrev pub Guarded : Input → List Decision → Position → Type 0
Guarded j waiting p =
    (runs_tools p ≡ false)
    × (not (runs_tools (step j p)) || all_approved waiting j.approvals ≡ true)

module _ (j : Input) (waiting : List Decision) (st : AgentState) where
  Guarded-finished : Guarded j waiting (finished st)
  unfolding step
  Guarded-finished = (refl, refl)

  Guarded-reject : Guarded j waiting (at reject_tool st)
  unfolding step run_node reject_tool_node after_node next_node
  Guarded-reject = (refl, ground arith)

  Guarded-input : Guarded j waiting (at user_input_node st)
  unfolding step run_node user_input_required_node after_node next_node
  Guarded-input =
      (refl, elim (Option-cases j.user_input) [ inl h ↦ rw h refl | inr (text, h) ↦ rw h refl ])

  answered_tools :
      (a : Approval) (b : Bool)
      → a.approved ≡ b
      → runs_tools
          (after_node approval_node st (updated (clear_pause (record st { approval = some a }))))
        ≡ b
  unfolding after_node next_node route_after_approval clear_pause
  answered_tools a true h = rw h refl
  answered_tools a false h = rw h refl

  Guarded-approval :
      pending_approvals st.permission ≡ waiting → Guarded j waiting (at approval_node st)
  unfolding step run_node approval_required_node after_node
  Guarded-approval pending = (
    refl,
    elim (Option-cases (
        ask_approvals waiting j.approvals
          (record { approved = false; reason = "approval rejected" }))) [
            | inl h ↦ rw (pending, h, approval_required_node) refl
            | inr (a, h) ↦ elim (Bool-cases a.approved) [
              | inl agreed ↦ ground (arith, ask_approvals-approved waiting j.approvals _ a h agreed)
              | inr refused ↦
                  rw (pending, h, approval_required_node) (rw (answered_tools a false refused) refl)
            ]
          ],
  )

  -- The edge to the rejection, or to the end where the run has a reason to stop.
  Guarded-ended : (b : Bool) → Guarded j waiting (arrive (if b then end else reject_tool) st)
  Guarded-ended true = Guarded-finished
  Guarded-ended false = Guarded-reject

  route_denied :
      (p : Permission)
      → st.permission ≡ some p
      → p.status ≡ denied
      → route_after_permission st ≡ (if is_some st.stop_reason then end else reject_tool)
  unfolding route_after_permission
  route_denied p h status = ground (arith, h, status)

  Guarded-denied :
      (p : Permission)
      → st.permission ≡ some p
      → p.status ≡ denied
      → Guarded j waiting (arrive (route_after_permission st) st)
  Guarded-denied p h status =
      subst (λ n. Guarded j waiting (arrive n st)) (sym (route_denied p h status))
        (Guarded-ended (is_some st.stop_reason))

module _ (i j : Input) (st : AgentState) (gate : Call → GateDecision) where
  Guarded-weigh :
      (calls : List Call) (decisions refused waiting : List Decision)
      → select (status_is approval_required) decisions ≡ waiting
      → (refused ≡ [] → waiting ≡ [] → true ≡ false)
      → Guarded j waiting
          (after_node check_permission st (updated (weigh calls decisions refused waiting st)))
  unfolding after_node next_node weigh pause_with pending_approvals route_after_permission
  Guarded-weigh calls decisions (d ∷ refused) waiting split held =
      Guarded-denied j waiting _ _ refl refl
  Guarded-weigh calls decisions [] (d ∷ waiting) split held =
      Guarded-approval j (d ∷ waiting) _ (ground (arith, split))
  Guarded-weigh calls decisions [] [] split held = absurd (ground (arith, held refl refl))

  -- Calls of which the gate holds one.
  abbrev HoldsOne : List Call → Type 0
  HoldsOne calls =
      select (status_is denied) (map (gate_decision i gate) calls) ≡ []
      → select (status_is approval_required) (map (gate_decision i gate) calls) ≡ []
      → true ≡ false

  Guarded-permit_calls :
      (c : Call) (calls : List Call)
      → i.gate ≡ some gate
      → HoldsOne (c ∷ calls)
      → Guarded j
          (select (status_is approval_required) (map (gate_decision i gate) (c ∷ calls)))
          (after_node check_permission st (updated (permit_calls i (c ∷ calls) st)))
  unfolding permit_calls gate_calls after_node next_node route_after_permission pause_with stop_with
      gate_decision decide
  Guarded-permit_calls c calls gated held = elim (Option-cases (input_request (c ∷ calls))) [
    | inr (request, h) ↦ rw (h, permit_calls) (Guarded-input j _ _)
    | inl h ↦ elim (Option-cases (tool_call_limit st i.now (length (c ∷ calls)))) [
      | inr (l, reached) ↦ rw (h, reached, permit_calls) (Guarded-finished j _ _)
      | inl below ↦ rw (h, below, gated, permit_calls) (Guarded-weigh (c ∷ calls) _ _ _ refl held)
    ]
  ]

  Guarded-calls :
      (calls before after : List Call) (c : Call)
      → calls ≡ before ++ c ∷ after
      → i.gate ≡ some gate
      → gate_status (gate c) ≡ approval_required
      → Guarded j
          (select (status_is approval_required) (map (gate_decision i gate) calls))
          (after_node check_permission st (updated (permit_calls i calls st)))
  Guarded-calls calls [] after c split gated held =
      rw split (Guarded-permit_calls c after gated (held_among i gate c [] after held))
  Guarded-calls calls (b ∷ before) after c split gated held = rw split (
      Guarded-permit_calls b (before ++ c ∷ after) gated
        (held_among i gate c (b ∷ before) after held))

  route_stopped :
      (l : ExecutionLimit)
      → is_some st.permission ≡ false
      → route_after_permission (stop_with l st) ≡ end
  unfolding route_after_permission stop_with
  route_stopped l fresh = ground (arith, fresh)

  Guarded-stopped :
      (waiting : List Decision) (l : ExecutionLimit)
      → is_some st.permission ≡ false
      → Guarded j waiting (after_node check_permission st (updated (stop_with l st)))
  unfolding after_node next_node
  Guarded-stopped waiting l fresh =
      subst (λ n. Guarded j waiting (arrive n (stop_with l st))) (sym (route_stopped l fresh))
        (Guarded-finished j waiting (stop_with l st))

  check_open :
      i.cancelled ≡ false
      → check_permission_node i st
        ≡ updated (permit_calls i (calls_or_none (latest_calls st.messages)) st)
  unfolding check_permission_node
  check_open h = ground (arith, h)

  abbrev cancellation : ExecutionLimit
  cancellation = record {
    reason = canceled;
    limit = control_plane_cancellation;
    limit_value = 0;
    observed_value = 0;
  }

  check_cancelled :
      i.cancelled ≡ true → check_permission_node i st ≡ updated (stop_with cancellation st)
  unfolding check_permission_node
  check_cancelled h = ground (arith, h)

  -- At the check, in a state without a permission, with a call that the gate holds.
  pub Guarded-check :
      (before after : List Call) (c : Call)
      → is_some st.permission ≡ false
      → calls_or_none (latest_calls st.messages) ≡ before ++ c ∷ after
      → i.gate ≡ some gate
      → gate_status (gate c) ≡ approval_required
      → Guarded j
          (select
            (status_is approval_required)
            (map (gate_decision i gate) (calls_or_none (latest_calls st.messages))))
          (step i (at check_permission st))
  unfolding step run_node
  Guarded-check before after c fresh split gated held =
      let calls = calls_or_none (latest_calls st.messages) in
      let waiting = select (status_is approval_required) (map (gate_decision i gate) calls) in
      elim (Bool-cases i.cancelled) [
        | inl h ↦
            subst (λ r. Guarded j waiting (after_node check_permission st r))
              (sym (check_cancelled h)) (Guarded-stopped waiting cancellation fresh)
        | inr h ↦
            subst (λ r. Guarded j waiting (after_node check_permission st r)) (sym (check_open h))
              (Guarded-calls calls before after c split gated held)
      ]
