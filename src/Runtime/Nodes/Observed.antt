-- ===== src/Runtime/Nodes/Observed.antt =====
-- vermay/langgraph_runtime/nodes.py: the nodes after the tools, and the limits that they may reach.
use mathlib.Core.List.{reverse}
use vermay_agent.Prelude.{
  ℕ, ◌+◌, ◌-◌, String, ◌==◌, Bool, true, false, ◌&&◌, not, Option, none, some, List, [], ◌∷◌, ◌++◌,
  map, select, length, ltb, leb, truthy, if◌then◌else◌,
}
use vermay_agent.Json.{Json, bool, str, obj, Fields, end, get, json_truthy}
use vermay_agent.Runtime.Policy.{
  ExecutionPolicy, ExecutionLimit, budget_exhausted as budget_stop, repeated_failure,
  tool_argument_error, limit_if, limit_argument_corrections, limit_failures, limit_loop_steps,
}
use vermay_agent.Runtime.State.{
  ToolMessage, Message, ai, tool, prompt, Observation, AgentState, policy_from_state,
  loop_step_limit, latest_calls, calls_or_none,
}
use vermay_agent.Runtime.Nodes.Reading.{Input, NodeResult, stop_with, updated}

-- LangGraph's `ToolNode` on the calls of the last message of the model.
unfoldable pub tools_node : Input → AgentState → NodeResult
tools_node i st = updated (record st {
  messages = st.messages ++ map tool (i.tool_messages (calls_or_none (latest_calls st.messages)));
})

abbrev pub no_messages : List ToolMessage → Bool
no_messages [] = true
no_messages _ = false

-- The loop of `_latest_tool_messages` over the reversed messages.
unfoldable pub collect_tools : List Message → List ToolMessage → List ToolMessage
collect_tools [] found = found
collect_tools (tool m ∷ ms) found = collect_tools ms (found ++ m ∷ [])
collect_tools (ai _ _ ∷ ms) found =
    let rest = collect_tools ms found in if no_messages found then rest else found
collect_tools (prompt _ ∷ ms) found =
    let rest = collect_tools ms found in if no_messages found then rest else found

unfoldable pub latest_tool_messages : List Message → List ToolMessage
latest_tool_messages messages = reverse (collect_tools (reverse messages) [])

-- `data.get("ok") is False`
abbrev pub says_failed : Option Fields → Bool
says_failed none = false
says_failed (some fields) = elim (get "ok" fields) [ some (bool false) ↦ true | _ ↦ false ]

-- `_error_fields`: the first text that is not empty.
abbrev pub text_at : Option Json → Option String
text_at (some (str s)) = if truthy s then some s else none
text_at _ = none

abbrev pub or_text_at : Option String → Option String → Option String
or_text_at none b = b
or_text_at (some a) b = some a

abbrev pub inner : Option Json → Fields
inner (some (obj fields)) = fields
inner _ = end

unfoldable pub error_category : Fields → Option String
error_category data_ =
    let error = inner (get "error" data_) in
    or_text_at (text_at (get "error_category" data_)) (
      or_text_at (text_at (get "errorCategory" data_)) (
        or_text_at (text_at (get "error_code" data_)) (
          or_text_at (text_at (get "errorCode" data_)) (
            or_text_at (text_at (get "code" data_))
              (or_text_at (text_at (get "category" error)) (text_at (get "code" error)))))))

-- `data.get("retryable")`, or the one of the error if that is no Boolean, as a truth value.
unfoldable pub retryable_of : Fields → Bool
retryable_of data_ = elim (get "retryable" data_) [
  | some (bool b) ↦ b
  | some v ↦ elim (get "error" data_) [
    | some (obj error) ↦ elim (get "retryable" error) [ some r ↦ json_truthy r | none ↦ false ]
    | _ ↦ json_truthy v
  ]
  | none ↦ elim (get "error" data_) [
    | some (obj error) ↦ elim (get "retryable" error) [ some r ↦ json_truthy r | none ↦ false ]
    | _ ↦ false
  ]
]

abbrev pub category_or_default : Option Fields → String
category_or_default none = "tool_execution_error"
category_or_default (some fields) = elim (error_category fields) [
  | some category ↦ category
  | none ↦ "tool_execution_error"
]

abbrev pub retryable_or_false : Option Fields → Bool
retryable_or_false none = false
retryable_or_false (some fields) = retryable_of fields

unfoldable pub normalize_tool_observation : ℕ → ToolMessage → Observation
normalize_tool_observation loop_index m =
    let ok = not m.is_error && not (says_failed m.structured) in
    record {
      loop_index = loop_index;
      tool_call_id = m.tool_call_id;
      tool_name = if truthy m.name then m.name else "tool";
      ok = ok;
      error_category = if ok then none else some (category_or_default m.structured);
      retryable = if ok then false else retryable_or_false m.structured;
    }

abbrev pub is_argument_error : Observation → Bool
is_argument_error o = elim o.error_category [
  | none ↦ false
  | some category ↦ category == "tool_argument_error"
]

abbrev pub is_execution_error : Observation → Bool
is_execution_error o = not o.ok && not (is_argument_error o)

abbrev pub some_of : List Observation → Bool
some_of [] = false
some_of _ = true

-- The counters after the observations of one round.
unfoldable pub count_observations : List Observation → AgentState → AgentState
count_observations observed st =
    let invalid = some_of (select is_argument_error observed) in
    record st {
      observations = st.observations ++ observed;
      tool_calls = st.tool_calls + length observed;
      failure_count = st.failure_count + length (select is_execution_error observed);
      tool_argument_error_rounds = st.tool_argument_error_rounds + (if invalid then 1 else 0);
    }

-- The limits that the counters may have reached.
unfoldable pub observation_limit : Bool → ExecutionPolicy → AgentState → Option ExecutionLimit
observation_limit invalid policy st =
    if invalid && ltb policy.max_tool_argument_corrections st.tool_argument_error_rounds
    then some (record {
      reason = tool_argument_error;
      limit = limit_argument_corrections;
      limit_value = policy.max_tool_argument_corrections;
      observed_value = st.tool_argument_error_rounds;
    })
    else limit_if (leb policy.max_failures st.failure_count) repeated_failure limit_failures
        policy.max_failures st.failure_count

abbrev pub stop_if : Option ExecutionLimit → AgentState → AgentState
stop_if none st = st
stop_if (some limit) st = stop_with limit st

unfoldable pub record_tool_messages_node : Input → AgentState → NodeResult
record_tool_messages_node i st =
    let observed =
      map (normalize_tool_observation st.loop_index) (latest_tool_messages st.messages) in
    let counted = count_observations observed st in
    updated (
      stop_if
        (observation_limit (some_of (select is_argument_error observed)) (policy_from_state st)
          counted)
        counted)

unfoldable pub increment_loop_node : Input → AgentState → NodeResult
increment_loop_node i st =
    let next = st.loop_index + 1 in
    updated
      (stop_if (loop_step_limit st i.now next) (record st { loop_index = next; permission = none }))

unfoldable pub max_loops_node : Input → AgentState → NodeResult
max_loops_node i st = updated (
    stop_with
      (record {
        reason = budget_stop;
        limit = limit_loop_steps;
        limit_value = st.max_loops;
        observed_value = st.loop_index - 1;
      })
      st)
