-- ===== src/Examples/Metadata.antt =====
-- Metadata of a tool, with numbers written in unary.
use vermay_agent.Prelude.{
  ℕ, zero, suc, ◌+◌, String, ◌≡◌, ap, refl, true, false, Option, none, some, [], ◌∷◌, not, ◌||◌,
  length-map, if◌then◌else◌, ◌==◌, arith,
}
use vermay_agent.Json.{Json, null, bool, str, arr, Items, nil, cons, Fields, field, entry, get, end}
use vermay_agent.Runtime.State.{Call}
use vermay_agent.Tools.{
  Python, ToolMetadata, normalize_tool_metadata, to_metadata, validate_tool_metadata, is_valid,
  member_named, bool_value, positive_int_value, string_tuple, texts_of, settled_danger, ◌>>=◌,
  builtin, category_unknown, scope_unknown, effect_destructive, approval_required,
}
use vermay_agent.Tools.Idempotent.{normalize_tool_metadata-to_metadata}
use vermay_agent.Tools.Permission.{gate_of}
use vermay_agent.Tools.Held.{waiting_decisions, dangerous_held}
use vermay_agent.Runtime.Gated.{runs_tools, all_approved}
use vermay_agent.Runtime.Bounds.{initial}
use vermay_agent.Runtime.Budget.{AnswersCalls}
use vermay_agent.Runtime.Policy.{
  elapsed_limit, from_dict, positive_float_or_none, to_dict, positive_int,
}
use vermay_agent.Runtime.Graph.{at, run, step, run_node, after_node, next_node}
use vermay_agent.Runtime.State.{
  AgentState, build_initial_state, check_permission, model_call_limit, policy_from_state, policy_of,
  route_after_model, latest_calls,
}
use vermay_agent.Runtime.Nodes.{
  responded, Input, call_model_asking, call_model_node, model_limit, answer_of, take_response,
}
use vermay_agent.Examples.Runs.{two_loops, two_loops-valid, answer_call, reading, question}

nulls : ℕ → Items
nulls zero = nil
nulls (suc n) = cons null (nulls n)

count : Items → ℕ
count nil = 0
count (cons v rest) = count rest + 1

count-nulls : (n : ℕ) → count (nulls n) ≡ n
unfolding count nulls
count-nulls zero = refl
count-nulls (suc n) = omega (arith, count-nulls n)

text : Json → String
text (str s) = s
text _ = ""

number_of : Json → Option ℕ
number_of (arr values) = some (count values)
number_of _ = none

abbrev unary : Python
unfolding text number_of
unary = record {
  text_of = text;
  int_of = number_of;
  number = λ n. arr (nulls n);
  text_of_str = λ s. refl;
  int_of_number = λ n. ap some (count-nulls n);
  number_no_bool = λ n. refl;
}

abbrev described : Fields
described = field "dangerous" (bool true) (
    field "read_only" (bool false) (
      field "destructive" (bool true) (
        field "side_effect_level" (str "destructive")
          (entry "output_max_chars" (arr (cons null nil))))))

abbrev known : ToolMetadata
known = record {
  source = builtin;
  category = category_unknown;
  execution_scope = scope_unknown;
  read_only = false;
  side_effect_level = effect_destructive;
  approval_policy = approval_required;
  destructive = true;
  credential_sensitive = false;
  argument_policy = null;
  output_visibility = "internal";
  output_redaction_status = "unknown";
  redaction_required = false;
  output_max_chars = 1;
  produces_artifacts = false;
  artifact_kinds = [];
  dangerous = true;
}

described-known : normalize_tool_metadata unary described ≡ some known
unfolding normalize_tool_metadata get bool_value member_named positive_int_value string_tuple
    texts_of validate_tool_metadata is_valid settled_danger ◌>>=◌ text number_of count
described-known = refl

normalize_tool_metadata-to_metadata_example :
    normalize_tool_metadata unary (to_metadata unary known) ≡ some known
normalize_tool_metadata-to_metadata_example =
    normalize_tool_metadata-to_metadata unary described known described-known

abbrev delete_call : Call
delete_call = record { id = "call-1"; name = "delete_file"; args = end }

abbrev one_tool : String → Option ToolMetadata
one_tool name = if name == "delete_file" then some known else none

-- The model asks to delete a file, and the operator refuses.
abbrev refused_world : ℕ → Input
refused_world k = record (reading (responded "" (delete_call ∷ []))) {
  gate = some (gate_of one_tool);
  approvals = record { approved = false; reason = "keep it" } ∷ [];
}

abbrev asked_state : AgentState
asked_state = take_response "" (delete_call ∷ []) (build_initial_state question two_loops 0)

asked : run 1 refused_world 0 (initial question two_loops 0) ≡ at check_permission asked_state
unfolding run step run_node after_node next_node call_model_node call_model_asking model_limit
    answer_of take_response build_initial_state model_call_limit elapsed_limit policy_from_state
    policy_of from_dict positive_float_or_none to_dict positive_int route_after_model latest_calls
asked = refl

refused_world-AnswersCalls : (k : ℕ) → AnswersCalls (refused_world k)
refused_world-AnswersCalls k = record { one_each = λ calls. length-map answer_call calls }

dangerous_held_example :
    (runs_tools (step (refused_world 1) (at check_permission asked_state)) ≡ false)
    × (not (
            runs_tools
              (step (refused_world 2) (step (refused_world 1) (at check_permission asked_state))))
          || all_approved
              (waiting_decisions (refused_world 1) one_tool asked_state)
              (refused_world 2).approvals
        ≡ true)
unfolding get take_response build_initial_state latest_calls
dangerous_held_example =
    dangerous_held unary described known one_tool two_loops question 0 refused_world 1 asked_state
      [] [] delete_call described-known refl refl refl two_loops-valid refused_world-AnswersCalls
      asked refl refl
