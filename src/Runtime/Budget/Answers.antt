-- ===== src/Runtime/Budget/Answers.antt =====
-- vermay/langgraph_runtime/nodes.py: what the interrupts, the rejection and the end of the loops keep
-- of the limits.
use vermay_agent.Prelude.{
  String, ◌≡◌, refl, Bool, true, false, Option, none, some, List, ◌++◌, if◌then◌else◌, arith,
  Bool-cases, Option-cases, inl, inr,
}
use vermay_agent.Runtime.Policy.{ExecutionPolicy}
use vermay_agent.Runtime.State.{
  AgentState, Message, Permission, StopDetail, Approval, Node, approval_node, user_input_node,
  reject_tool, tools, max_loops_node as max_loops_at, policy_from_state, route_after_approval,
}
use vermay_agent.Runtime.Nodes.{
  Input, updated, paused, clear_pause, ask_approvals, pending_approvals, approval_required_node,
  user_input_required_node, reject_tool_node, reject_permission, answer_with, input_messages,
  permitted_calls, max_loops_node,
}
use vermay_agent.Runtime.Graph.{after_node, next_node}
use vermay_agent.Runtime.Budget.{reserved, Within, Inv, Done, Holds, Done-stop_with}

module _ (q : ExecutionPolicy) (st : AgentState) where
  Within-cleared :
      (messages : List Message) (approval : Option Approval)
      → Within q st
      → Within q (clear_pause (record st { messages = messages; approval = approval }))
  unfolding clear_pause policy_from_state
  Within-cleared messages approval within = record {
    policy = within.policy;
    models = within.models;
    tools = within.tools;
  }

  Inv-approved :
      (a : Approval)
      → Inv q approval_node st
      → Inv q tools (clear_pause (record st { approval = some a }))
  unfolding clear_pause reserved
  Inv-approved a inv = record {
    within = Within-cleared st.messages (some a) inv.within;
    fits = inv.fits;
    loops = inv.loops;
    calls = λ h. inv.calls refl;
    open_ = inv.open_;
    fresh = λ h. absurd (ground (arith, h));
  }

  Inv-not_approved :
      (a : Approval)
      → Inv q approval_node st
      → Inv q reject_tool (clear_pause (record st { approval = some a }))
  unfolding clear_pause reserved
  Inv-not_approved a inv = record {
    within = Within-cleared st.messages (some a) inv.within;
    fits = omega (arith, inv.within.tools);
    loops = inv.loops;
    calls = λ h. inv.calls refl;
    open_ = inv.open_;
    fresh = λ h. absurd (ground (arith, h));
  }

  route_answered :
      (a : Approval) (b : Bool)
      → a.approved ≡ b
      → route_after_approval (clear_pause (record st { approval = some a }))
        ≡ (if b then tools else reject_tool)
  unfolding route_after_approval clear_pause
  route_answered a b h = rw h refl

  Holds-answered :
      (a : Approval)
      → Inv q approval_node st
      → Holds q
          (after_node approval_node st (updated (clear_pause (record st { approval = some a }))))
  unfolding after_node next_node Holds
  Holds-answered a inv = elim (Bool-cases a.approved) [
    | inl h ↦ rw (route_answered a true h) (Inv-approved a inv)
    | inr h ↦ rw (route_answered a false h) (Inv-not_approved a inv)
  ]

  Holds-paused : (n : Node) → Inv q n st → Holds q (after_node n st paused)
  unfolding after_node Holds
  Holds-paused n inv = inv

  pub Holds-approval :
      (i : Input)
      → Inv q approval_node st
      → Holds q (after_node approval_node st (approval_required_node i st))
  unfolding approval_required_node
  Holds-approval i inv =
      elim (Option-cases (
        ask_approvals (pending_approvals st.permission) i.approvals
          (record { approved = false; reason = "approval rejected" }))) [
            | inl h ↦ rw (h, approval_required_node) (Holds-paused approval_node inv)
            | inr (a, h) ↦ rw (h, approval_required_node) (Holds-answered a inv)
          ]

  Holds-informed :
      Inv q user_input_node st
      → Holds q (
          after_node user_input_node st (
            updated (
              clear_pause (record st {
                messages = st.messages ++ input_messages (permitted_calls st.permission);
              }))))
  unfolding after_node next_node Holds reserved clear_pause
  Holds-informed inv = record {
    within = Within-cleared _ st.approval inv.within;
    fits = omega (arith, inv.within.tools);
    loops = inv.loops;
    calls = λ h. absurd (ground (arith, h));
    open_ = inv.open_;
    fresh = λ h. absurd (ground (arith, h));
  }

  pub Holds-user_input :
      (i : Input)
      → Inv q user_input_node st
      → Holds q (after_node user_input_node st (user_input_required_node i st))
  unfolding user_input_required_node after_node Holds
  Holds-user_input i inv = elim (Option-cases i.user_input) [
    | inl h ↦ rw h inv
    | inr (text, h) ↦ rw h (Holds-informed inv)
  ]

  Done-answer_with :
      (text : String) (detail : StopDetail)
      → Inv q reject_tool st
      → Done q (answer_with text detail st)
  unfolding answer_with policy_from_state
  Done-answer_with text detail inv = record {
    within = record {
      policy = inv.within.policy;
      models = inv.within.models;
      tools = inv.within.tools;
    };
    loops = omega (arith, inv.loops);
    reason = refl;
  }

  Done-reject_permission :
      (p : Option Permission) → Inv q reject_tool st → Done q (reject_permission p st)
  unfolding reject_permission
  Done-reject_permission none inv = Done-answer_with _ _ inv
  Done-reject_permission (some p) inv = Done-answer_with _ _ inv

  pub Holds-reject_tool :
      (i : Input)
      → Inv q reject_tool st
      → Holds q (after_node reject_tool st (reject_tool_node i st))
  unfolding reject_tool_node after_node next_node Holds
  Holds-reject_tool i inv = elim (Option-cases st.approval) [
    | inl h ↦ rw h (Done-reject_permission st.permission inv)
    | inr (a, h) ↦ elim (Bool-cases a.approved) [
      | inl agreed ↦ rw (h, agreed) (Done-reject_permission st.permission inv)
      | inr refused ↦ rw (h, refused) (Done-answer_with _ _ inv)
    ]
  ]

  pub Holds-max_loops :
      (i : Input)
      → Inv q max_loops_at st
      → Holds q (after_node max_loops_at st (max_loops_node i st))
  unfolding max_loops_node after_node next_node Holds
  Holds-max_loops i inv = Done-stop_with q st max_loops_at _ inv
