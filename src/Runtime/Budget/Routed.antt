-- ===== src/Runtime/Budget/Routed.antt =====
-- vermay/langgraph_runtime/routing.py: the route after the permission check, and what it keeps of the
-- limits.
use vermay_agent.Prelude.{
  ◌+◌, ◌≤◌, ◌≡◌, refl, Bool, true, false, Option, none, some, is_some, length, if◌then◌else◌, arith,
  Bool-cases, inl, inr, ◌⊎◌,
}
use vermay_agent.Runtime.Policy.{ExecutionPolicy}
use vermay_agent.Runtime.State.{
  AgentState, Permission, PermissionStatus, allowed, denied, approval_required, input_required,
  budget_exhausted, Node, approval_node, user_input_node, reject_tool, tools, end, latest_calls,
  calls_or_none, route_after_permission,
}
use vermay_agent.Runtime.Graph.{arrive}
use vermay_agent.Runtime.Messages.{ends_with_calls}
use vermay_agent.Runtime.Budget.{reserved, Within, Inv, Holds}

-- The decisions that let the calls go on, at once or after an approval.
abbrev pub lets_through : Option Permission → Bool
lets_through none = false
lets_through (some p) = elim p.status [ allowed ↦ true | approval_required ↦ true | _ ↦ false ]

-- A state with the decision on the calls of the model.
pub record Ready (q : ExecutionPolicy) (st : AgentState) (p : Permission) : Type 0 where
  pub within : Within q st
  pub room :
      lets_through (some p) ≡ true
      → st.tool_calls + length (calls_or_none (latest_calls st.messages)) ≤ q.max_tool_calls
  pub loops : st.loop_index ≤ q.max_loop_steps
  pub calls : ends_with_calls st.messages ≡ true
  pub open_ : is_some st.final_answer ≡ false
  pub decided : st.permission ≡ some p

-- `route_after_permission`, by the status.
abbrev route_as : AgentState → PermissionStatus → Node
route_as st allowed = tools
route_as st input_required = user_input_node
route_as st approval_required = approval_node
route_as st _ = if is_some st.stop_reason then end else reject_tool

module _ (q : ExecutionPolicy) (st : AgentState) where
  Inv-reject_tool : (p : Permission) → Ready q st p → Inv q reject_tool st
  unfolding reserved
  Inv-reject_tool p ready = record {
    within = ready.within;
    fits = omega (arith, ready.within.tools);
    loops = ready.loops;
    calls = λ h. ready.calls;
    open_ = ready.open_;
    fresh = λ h. absurd (ground (arith, h));
  }

  Holds-refused :
      (p : Permission)
      → Ready q st p
      → Holds q (arrive (if is_some st.stop_reason then end else reject_tool) st)
  unfolding Holds
  Holds-refused p ready = elim (Bool-cases (is_some st.stop_reason)) [
    | inl stopped ↦
        rw stopped
          (record { within = ready.within; loops = omega (arith, ready.loops); reason = stopped })
    | inr clear ↦ rw clear (Inv-reject_tool p ready)
  ]

  Inv-let_through :
      (p : Permission) (n : Node)
      → Ready q st p
      → lets_through (some p) ≡ true
      → n ≡ tools ⊎ n ≡ approval_node
      → Inv q n st
  unfolding reserved
  Inv-let_through p n ready through (inl h) = rw h (record {
    within = ready.within;
    fits = ready.room through;
    loops = ready.loops;
    calls = λ h. ready.calls;
    open_ = ready.open_;
    fresh = λ h. absurd (ground (arith, h));
  })
  Inv-let_through p n ready through (inr h) = rw h (record {
    within = ready.within;
    fits = ready.room through;
    loops = ready.loops;
    calls = λ h. ready.calls;
    open_ = ready.open_;
    fresh = λ h. absurd (ground (arith, h));
  })

  Inv-user_input : (p : Permission) → Ready q st p → Inv q user_input_node st
  unfolding reserved
  Inv-user_input p ready = record {
    within = ready.within;
    fits = omega (arith, ready.within.tools);
    loops = ready.loops;
    calls = λ h. ready.calls;
    open_ = ready.open_;
    fresh = λ h. absurd (ground (arith, h));
  }

  route_status :
      (p : Permission) (s : PermissionStatus)
      → st.permission ≡ some p
      → p.status ≡ s
      → route_after_permission st ≡ route_as st s
  unfolding route_after_permission
  route_status p s decided h = rw (decided, h) refl

  -- The route after the permission check, for each status.
  pub Holds-routed :
      (p : Permission) (s : PermissionStatus)
      → p.status ≡ s
      → Ready q st p
      → Holds q (arrive (route_after_permission st) st)
  unfolding Holds
  Holds-routed p allowed h ready =
      rw (route_status p allowed ready.decided h)
        (Inv-let_through p tools ready (rw h refl) (inl refl))
  Holds-routed p denied h ready = rw (route_status p denied ready.decided h) (Holds-refused p ready)
  Holds-routed p approval_required h ready =
      rw (route_status p approval_required ready.decided h)
        (Inv-let_through p approval_node ready (rw h refl) (inr refl))
  Holds-routed p input_required h ready =
      rw (route_status p input_required ready.decided h) (Inv-user_input p ready)
  Holds-routed p budget_exhausted h ready =
      rw (route_status p budget_exhausted ready.decided h) (Holds-refused p ready)
