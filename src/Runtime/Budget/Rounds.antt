-- ===== src/Runtime/Budget/Rounds.antt =====
-- vermay/langgraph_runtime/nodes.py: what the execution of the tools, the count of its observations and
-- the next loop keep of the limits.
use vermay_agent.Prelude.{
  ◌+◌, ◌≤◌, ◌≡◌, refl, ap, Option, none, some, is_some, List, [], ◌∷◌, ◌++◌, map, length,
  length-map, ltb, arith, Bool-cases, Option-cases, inl, inr, ◌⊎◌,
}
use vermay_agent.Runtime.Policy.{ExecutionPolicy, ExecutionLimit}
use vermay_agent.Runtime.State.{
  AgentState, ToolMessage, tool, Observation, Node, call_model, tools, record_tool_messages,
  increment_loop, max_loops_node as max_loops_at, latest_calls, calls_or_none, policy_from_state,
  loop_step_limit, route_loop_limit,
}
use vermay_agent.Runtime.Nodes.{
  Input, updated, stop_with, tools_node, record_tool_messages_node, increment_loop_node,
  count_observations, normalize_tool_observation, stop_if, latest_tool_messages,
}
use vermay_agent.Runtime.Graph.{after_node, next_node}
use vermay_agent.Runtime.Messages.{latest_calls-ends, latest_results}
use vermay_agent.Runtime.Budget.{reserved, Within, Inv, AnswersCalls, below_step_limit, Holds}

module _ (q : ExecutionPolicy) (st : AgentState) where
  Inv-executed :
      (results : List ToolMessage)
      → Inv q tools st
      → length results ≡ length (calls_or_none (latest_calls st.messages))
      → Inv q record_tool_messages (record st { messages = st.messages ++ map tool results })
  unfolding reserved policy_from_state
  Inv-executed [] inv answered =
      let (c, calls, latest) = latest_calls-ends st.messages (inv.calls refl) in
      absurd (ground (arith, answered, latest))
  Inv-executed (r ∷ results) inv answered = record {
    within = record {
      policy = inv.within.policy;
      models = inv.within.models;
      tools = inv.within.tools;
    };
    fits = rw (latest_results st.messages results r (inv.calls refl), answered) inv.fits;
    loops = inv.loops;
    calls = λ h. absurd (ground (arith, h));
    open_ = inv.open_;
    fresh = λ h. absurd (ground (arith, h));
  }

  pub Holds-tools :
      (i : Input)
      → AnswersCalls i
      → Inv q tools st
      → Holds q (after_node tools st (tools_node i st))
  unfolding tools_node after_node next_node Holds
  Holds-tools i answers inv =
      Inv-executed (i.tool_messages (calls_or_none (latest_calls st.messages))) inv
        (answers.one_each (calls_or_none (latest_calls st.messages)))

  -- The counted observations use up the calls that were reserved.
  Inv-counted :
      (observed : List Observation)
      → length observed ≡ length (latest_tool_messages st.messages)
      → Inv q record_tool_messages st
      → Inv q increment_loop (count_observations observed st)
  unfolding count_observations reserved policy_from_state
  Inv-counted observed counts inv = record {
    within = record {
      policy = inv.within.policy;
      models = inv.within.models;
      tools = omega (arith, counts, inv.fits);
    };
    fits = omega (arith, counts, inv.fits);
    loops = inv.loops;
    calls = λ h. absurd (ground (arith, h));
    open_ = inv.open_;
    fresh = λ h. absurd (ground (arith, h));
  }

  Inv-stop_if :
      (l : Option ExecutionLimit) → Inv q increment_loop st → Inv q increment_loop (stop_if l st)
  unfolding stop_with reserved policy_from_state
  Inv-stop_if none inv = inv
  Inv-stop_if (some l) inv = record {
    within = record {
      policy = inv.within.policy;
      models = inv.within.models;
      tools = inv.within.tools;
    };
    fits = inv.fits;
    loops = inv.loops;
    calls = λ h. absurd (ground (arith, h));
    open_ = inv.open_;
    fresh = λ h. absurd (ground (arith, h));
  }

  Within-next :
      Inv q increment_loop st
      → Within q (record st { loop_index = st.loop_index + 1; permission = none })
  unfolding policy_from_state
  Within-next inv = record {
    policy = inv.within.policy;
    models = inv.within.models;
    tools = inv.within.tools;
  }

  Inv-next :
      (n : Node)
      → n ≡ call_model ⊎ n ≡ max_loops_at
      → Inv q increment_loop st
      → st.loop_index + 1 ≤ q.max_loop_steps
      → Inv q n (record st { loop_index = st.loop_index + 1; permission = none })
  unfolding reserved
  Inv-next n (inl h) inv below = rw h (record {
    within = Within-next inv;
    fits = omega (arith, inv.within.tools);
    loops = below;
    calls = λ h. absurd (ground (arith, h));
    open_ = inv.open_;
    fresh = λ h. refl;
  })
  Inv-next n (inr h) inv below = rw h (record {
    within = Within-next inv;
    fits = omega (arith, inv.within.tools);
    loops = below;
    calls = λ h. absurd (ground (arith, h));
    open_ = inv.open_;
    fresh = λ h. refl;
  })

  Holds-next :
      Inv q increment_loop st
      → st.loop_index + 1 ≤ q.max_loop_steps
      → Holds q (
          after_node increment_loop st
            (updated (record st { loop_index = st.loop_index + 1; permission = none })))
  unfolding after_node next_node route_loop_limit Holds
  Holds-next inv below = elim (Bool-cases (is_some st.stop_reason)) [
    | inl stopped ↦
        rw stopped
          (record { within = Within-next inv; loops = omega (arith, inv.loops); reason = stopped })
    | inr clear ↦ elim (Bool-cases (ltb st.max_loops (st.loop_index + 1))) [
      | inl over ↦ rw (clear, over) (Inv-next max_loops_at (inr refl) inv below)
      | inr within ↦ rw (clear, within) (Inv-next call_model (inl refl) inv below)
    ]
  ]

  -- Past the last loop the run ends with a reason.
  Holds-past :
      (l : ExecutionLimit)
      → Inv q increment_loop st
      → Holds q (
          after_node increment_loop st (
            updated
              (stop_with l (record st { loop_index = st.loop_index + 1; permission = none }))))
  unfolding after_node next_node route_loop_limit Holds stop_with policy_from_state
  Holds-past l inv = record {
    within = record {
      policy = (Within-next inv).policy;
      models = inv.within.models;
      tools = inv.within.tools;
    };
    loops = omega (arith, inv.loops);
    reason = refl;
  }

  pub Holds-increment_loop :
      (i : Input)
      → Inv q increment_loop st
      → Holds q (after_node increment_loop st (increment_loop_node i st))
  unfolding increment_loop_node
  Holds-increment_loop i inv = elim (Option-cases (loop_step_limit st i.now (st.loop_index + 1))) [
    | inl h ↦ rw h (
        Holds-next inv (
          omega (
            arith,
            below_step_limit st i.now (st.loop_index + 1) h,
            ap (λ p. p.max_loop_steps) inv.within.policy,
          )))
    | inr (l, h) ↦ rw h (Holds-past l inv)
  ]

pub Holds-record_tool_messages :
    (q : ExecutionPolicy) (st : AgentState) (i : Input)
    → Inv q record_tool_messages st
    → Holds q (after_node record_tool_messages st (record_tool_messages_node i st))
unfolding record_tool_messages_node after_node next_node Holds
Holds-record_tool_messages q st i inv =
    let observed =
      map (normalize_tool_observation st.loop_index) (latest_tool_messages st.messages) in
    Inv-stop_if q (count_observations observed st) _ (
      Inv-counted q st observed
        (length-map (normalize_tool_observation st.loop_index) (latest_tool_messages st.messages))
        inv)
