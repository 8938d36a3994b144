-- ===== src/Runtime/Spending/Paid.antt =====
-- vermay/langgraph_runtime: what has been asked of the model and of the tools, against the counters of
-- the state, node by node.
use vermay_agent.Prelude.{
  ℕ, String, Option, ◌+◌, ◌≤◌, ◌≡◌, refl, ap, ◌&&◌, none, some, List, [], ◌∷◌, ◌++◌, map, length,
  length-map, arith, Bool-cases, Option-cases, inl, inr,
}
use vermay_agent.Runtime.Policy.{ExecutionPolicy, ExecutionLimit}
use vermay_agent.Runtime.State.{
  AgentState, Call, ToolMessage, tool, Observation, Node, call_model, check_permission,
  approval_node, user_input_node, reject_tool, tools, record_tool_messages, increment_loop,
  max_loops_node as max_loops_at, end, latest_calls, calls_or_none, is_nil, route_after_model,
}
use vermay_agent.Runtime.Nodes.{
  Input, NodeResult, ModelAnswer, provider_error, responded, updated, paused, raised, stop_with,
  model_limit, take_response, answer_of, call_model_node, tools_node, record_tool_messages_node,
  count_observations, normalize_tool_observation, stop_if, latest_tool_messages,
}
use vermay_agent.Runtime.Asking.{asks_not, asks_once, requests_none, requests_one}
use vermay_agent.Runtime.Graph.{
  Position, at, finished, interrupted, failed, arrive, after_node, next_node,
}
use vermay_agent.Runtime.Messages.{latest_calls-ends, latest_results}
use vermay_agent.Runtime.Budget.{Inv, AnswersCalls, below_model_limit}
use vermay_agent.Runtime.Spending.{model_requests, tool_runs, Keeps}

-- Tool calls that ran and are not counted yet.
abbrev pub owed : Node → AgentState → ℕ
owed record_tool_messages st = length (latest_tool_messages st.messages)
owed _ st = 0

-- `m` requests and `e` tool calls are paid for: by the counters while the run goes on, and within the
-- policy once it stands.
unfoldable pub Paid : ExecutionPolicy → ℕ → ℕ → Position → Type 0
Paid q m e (at n st) = (m ≤ st.model_calls) × (e ≤ st.tool_calls + owed n st)
Paid q m e (finished st) = (m ≤ q.max_model_calls) × (e ≤ q.max_tool_calls)
Paid q m e (interrupted n st) = (m ≤ q.max_model_calls) × (e ≤ q.max_tool_calls)
Paid q m e (failed n st) = (m ≤ q.max_model_calls) × (e ≤ q.max_tool_calls)

module _ (q : ExecutionPolicy) (m e : ℕ) where
  Paid-arrive :
      (n : Node) (st : AgentState)
      → m ≤ st.model_calls
      → e ≤ st.tool_calls
      → (m ≤ q.max_model_calls) × (e ≤ q.max_tool_calls)
      → Paid q m e (arrive n st)
  unfolding Paid
  Paid-arrive call_model st hm he stands = (hm, omega (arith, he))
  Paid-arrive check_permission st hm he stands = (hm, omega (arith, he))
  Paid-arrive approval_node st hm he stands = (hm, omega (arith, he))
  Paid-arrive user_input_node st hm he stands = (hm, omega (arith, he))
  Paid-arrive reject_tool st hm he stands = (hm, omega (arith, he))
  Paid-arrive tools st hm he stands = (hm, omega (arith, he))
  Paid-arrive record_tool_messages st hm he stands = (hm, omega (arith, he))
  Paid-arrive increment_loop st hm he stands = (hm, omega (arith, he))
  Paid-arrive max_loops_at st hm he stands = (hm, omega (arith, he))
  Paid-arrive end st hm he stands = stands

  -- A node that spends nothing.
  pub Paid-kept :
      (n : Node) (st : AgentState) (result : NodeResult)
      → Keeps st result
      → m ≤ st.model_calls
      → e ≤ st.tool_calls
      → (m ≤ q.max_model_calls) × (e ≤ q.max_tool_calls)
      → Paid q m e (after_node n st result)
  unfolding after_node Paid
  Paid-kept n st (updated after) (models, tool_calls) hm he stands =
      Paid-arrive (next_node n after) after (omega (arith, hm, models))
        (omega (arith, he, tool_calls)) stands
  Paid-kept n st paused keeps hm he stands = stands
  Paid-kept n st raised keeps hm he stands = stands

module _ (q : ExecutionPolicy) (m e : ℕ) (st : AgentState) where
  Paid-response :
      (content : String) (calls : List Call)
      → m ≤ st.model_calls
      → e ≤ st.tool_calls
      → (m + 1 ≤ q.max_model_calls) × (e ≤ q.max_tool_calls)
      → Paid q (m + 1) e (after_node call_model st (updated (take_response content calls st)))
  unfolding after_node take_response
  Paid-response content [] hm he stands = Paid-arrive q (m + 1) e _ _ (omega (arith, hm)) he stands
  Paid-response content (c ∷ calls) hm he stands =
      Paid-arrive q (m + 1) e _ _ (omega (arith, hm)) he stands

  Paid-answer :
      (i : Input) (a : ModelAnswer)
      → i.model ≡ a
      → m ≤ st.model_calls
      → e ≤ st.tool_calls
      → (m + 1 ≤ q.max_model_calls) × (e ≤ q.max_tool_calls)
      → Paid q (m + 1) e (after_node call_model st (answer_of i st))
  unfolding answer_of after_node Paid
  Paid-answer i provider_error h hm he stands = rw h stands
  Paid-answer i (responded content calls) h hm he stands =
      elim (Bool-cases (is_nil calls && i.declares_call)) [
        | inl narrated ↦ rw (h, narrated) stands
        | inr fine ↦ rw (h, fine) (Paid-response content calls hm he stands)
      ]

  Paid-stopped :
      (l : ExecutionLimit)
      → Inv q call_model st
      → m ≤ st.model_calls
      → e ≤ st.tool_calls
      → Paid q (m + 0) e (after_node call_model st (updated (stop_with l st)))
  unfolding after_node stop_with
  Paid-stopped l inv hm he =
      Paid-arrive q (m + 0) e _ _ (omega (arith, hm)) he
        (omega (arith, hm, inv.within.models), omega (arith, he, inv.within.tools))

  -- A limit that is reached while the model answers ends the run, and its request stays uncounted.
  Paid-cut :
      (l : ExecutionLimit)
      → Inv q call_model st
      → e ≤ st.tool_calls
      → m + 1 ≤ q.max_model_calls
      → Paid q (m + 1) e (after_node call_model st (updated (stop_with l st)))
  unfolding after_node next_node route_after_model Paid stop_with
  Paid-cut l inv he below = rw inv.open_ (below, omega (arith, he, inv.within.tools))

  pub Paid-call_model :
      (i : Input)
      → Inv q call_model st
      → m ≤ st.model_calls
      → e ≤ st.tool_calls
      → Paid q
          (m + model_requests i (at call_model st))
          e
          (after_node call_model st (call_model_node i st))
  unfolding model_requests
  Paid-call_model i inv hm he = elim (Option-cases (model_limit i.cancelled st i.now)) [
    | inr (l, h) ↦ rw (asks_not i st l h, requests_none i st l h) (Paid-stopped l inv hm he)
    | inl before ↦
        let below : m + 1 ≤ q.max_model_calls = omega (
          arith,
          hm,
          below_model_limit i.cancelled st i.now before,
          ap (λ p. p.max_model_calls) inv.within.policy,
        ) in
        elim (Option-cases (model_limit i.cancelled_after st i.now_after)) [
          | inr (l, h) ↦
              rw (asks_once i st before, requests_one i st before) (rw h (Paid-cut l inv he below))
          | inl after ↦
              rw (asks_once i st before, requests_one i st before)
                (rw after
                  (Paid-answer i i.model refl hm he (below, omega (arith, he, inv.within.tools))))
        ]
  ]

  Paid-executed :
      (results : List ToolMessage)
      → Inv q tools st
      → length results ≡ length (calls_or_none (latest_calls st.messages))
      → m ≤ st.model_calls
      → e ≤ st.tool_calls
      → Paid q m
          (e + length (calls_or_none (latest_calls st.messages)))
          (at record_tool_messages (record st { messages = st.messages ++ map tool results }))
  unfolding Paid
  Paid-executed [] inv answered hm he =
      let (c, calls, latest) = latest_calls-ends st.messages (inv.calls refl) in
      absurd (ground (arith, answered, latest))
  Paid-executed (r ∷ results) inv answered hm he =
      (hm, rw (latest_results st.messages results r (inv.calls refl), answered) (omega (arith, he)))

  pub Paid-tools :
      (i : Input)
      → AnswersCalls i
      → Inv q tools st
      → m ≤ st.model_calls
      → e ≤ st.tool_calls
      → Paid q m (e + tool_runs i (at tools st)) (after_node tools st (tools_node i st))
  unfolding tools_node after_node next_node tool_runs
  Paid-tools i answers inv hm he =
      Paid-executed (i.tool_messages (calls_or_none (latest_calls st.messages))) inv
        (answers.one_each (calls_or_none (latest_calls st.messages))) hm he

  Paid-counted :
      (observed : List Observation)
      → length observed ≡ length (latest_tool_messages st.messages)
      → m ≤ st.model_calls
      → e ≤ st.tool_calls + length (latest_tool_messages st.messages)
      → Paid q m e (at increment_loop (count_observations observed st))
  unfolding count_observations Paid
  Paid-counted observed counts hm he = (hm, omega (arith, counts, he))

Paid-stop_if :
    (q : ExecutionPolicy) (m e : ℕ) (st : AgentState) (l : Option ExecutionLimit)
    → Paid q m e (at increment_loop st)
    → Paid q m e (at increment_loop (stop_if l st))
unfolding Paid stop_with
Paid-stop_if q m e st none paid = paid
Paid-stop_if q m e st (some l) paid = paid

pub Paid-record_tool_messages :
    (q : ExecutionPolicy) (m e : ℕ) (st : AgentState) (i : Input)
    → m ≤ st.model_calls
    → e ≤ st.tool_calls + length (latest_tool_messages st.messages)
    → Paid q m e (after_node record_tool_messages st (record_tool_messages_node i st))
unfolding record_tool_messages_node after_node next_node
Paid-record_tool_messages q m e st i hm he =
    let observed =
      map (normalize_tool_observation st.loop_index) (latest_tool_messages st.messages) in
    Paid-stop_if q m e (count_observations observed st) _ (
      Paid-counted q m e st observed
        (length-map (normalize_tool_observation st.loop_index) (latest_tool_messages st.messages))
        hm he)
