-- ===== src/Runtime/Budget/Model.antt =====
-- vermay/langgraph_runtime/nodes.py: what the model node keeps of the limits.
use vermay_agent.Prelude.{
  String, ◌+◌, ◌<◌, ◌≡◌, refl, ap, ◌&&◌, is_some, List, [], ◌∷◌, ◌++◌, arith, Bool-cases,
  Option-cases, inl, inr,
}
use vermay_agent.Runtime.Policy.{ExecutionPolicy, ExecutionLimit}
use vermay_agent.Runtime.State.{
  AgentState, Call, Message, ai, call_model, is_nil, policy_from_state, route_after_model,
}
use vermay_agent.Runtime.Nodes.{
  Input, ModelAnswer, provider_error, responded, updated, stop_with, model_limit, take_response,
  answer_of, call_model_node,
}
use vermay_agent.Runtime.Asking.{asks_not, asks_once}
use vermay_agent.Runtime.Graph.{after_node, next_node}
use vermay_agent.Runtime.Messages.{latest_calls-append, ends_with_calls-append}
use vermay_agent.Runtime.Budget.{reserved, Within, Inv, below_model_limit, Holds, Done-stop_with}

module _ (q : ExecutionPolicy) (st : AgentState) where
  -- An answer without a tool call ends the run.
  Holds-final :
      (content : String)
      → Inv q call_model st
      → st.model_calls < q.max_model_calls
      → Holds q (after_node call_model st (updated (take_response content [] st)))
  unfolding after_node next_node route_after_model take_response Holds policy_from_state
  Holds-final content inv below = record {
    within = record {
      policy = inv.within.policy;
      models = omega (arith, below);
      tools = inv.within.tools;
    };
    loops = omega (arith, inv.loops);
    reason = refl;
  }

  Within-called :
      (messages : List Message)
      → Inv q call_model st
      → st.model_calls < q.max_model_calls
      → Within q (record st { messages = messages; model_calls = st.model_calls + 1 })
  unfolding policy_from_state
  Within-called messages inv below = record {
    policy = inv.within.policy;
    models = omega (arith, below);
    tools = inv.within.tools;
  }

  -- An answer with tool calls leads to the permission check.
  Holds-calls :
      (content : String) (c : Call) (calls : List Call)
      → Inv q call_model st
      → st.model_calls < q.max_model_calls
      → Holds q (after_node call_model st (updated (take_response content (c ∷ calls) st)))
  unfolding after_node next_node route_after_model take_response Holds reserved
  Holds-calls content c calls inv below =
      let messages = st.messages ++ ai content (c ∷ calls) ∷ [] in
      elim (Bool-cases (is_some st.stop_reason)) [
        | inl pending ↦
            rw (inv.open_, pending)
              (record {
                within = Within-called messages inv below;
                loops = omega (arith, inv.loops);
                reason = pending;
              })
        | inr clear ↦
            rw (inv.open_, clear, latest_calls-append st.messages content (c ∷ calls))
              (record {
                within = Within-called messages inv below;
                fits = omega (arith, inv.within.tools);
                loops = inv.loops;
                calls = λ _. ends_with_calls-append st.messages content (c ∷ calls) refl;
                open_ = inv.open_;
                fresh = inv.fresh;
              })
      ]

  Holds-response :
      (content : String) (calls : List Call)
      → Inv q call_model st
      → st.model_calls < q.max_model_calls
      → Holds q (after_node call_model st (updated (take_response content calls st)))
  Holds-response content [] inv below = Holds-final content inv below
  Holds-response content (c ∷ calls) inv below = Holds-calls content c calls inv below

  -- What the model answers when no limit is reached.
  Holds-answer :
      (i : Input) (m : ModelAnswer)
      → i.model ≡ m
      → Inv q call_model st
      → st.model_calls < q.max_model_calls
      → Holds q (after_node call_model st (answer_of i st))
  unfolding answer_of after_node Holds
  Holds-answer i provider_error h inv below = rw h inv
  Holds-answer i (responded content calls) h inv below =
      elim (Bool-cases (is_nil calls && i.declares_call)) [
        | inl narrated ↦ rw (h, narrated) inv
        | inr fine ↦ rw (h, fine) (Holds-response content calls inv below)
      ]

  Holds-stopped :
      (l : ExecutionLimit)
      → Inv q call_model st
      → Holds q (after_node call_model st (updated (stop_with l st)))
  unfolding after_node next_node route_after_model Holds stop_with
  Holds-stopped l inv = rw inv.open_ (Done-stop_with q st call_model l inv)

  pub Holds-call_model :
      (i : Input) → Inv q call_model st → Holds q (after_node call_model st (call_model_node i st))
  Holds-call_model i inv = elim (Option-cases (model_limit i.cancelled st i.now)) [
    | inr (l, h) ↦ rw (asks_not i st l h) (Holds-stopped l inv)
    | inl none_before ↦ elim (Option-cases (model_limit i.cancelled_after st i.now_after)) [
      | inr (l, h) ↦ rw (asks_once i st none_before) (rw h (Holds-stopped l inv))
      | inl none_after ↦ rw (asks_once i st none_before) (
          rw none_after (
            Holds-answer i i.model refl inv (
              omega (
                arith,
                below_model_limit i.cancelled st i.now none_before,
                ap (λ p. p.max_model_calls) inv.within.policy,
              ))))
    ]
  ]
