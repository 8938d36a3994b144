-- ===== src/Examples/Runs.antt =====
-- Runs of the graph: with a tool call in each loop, and with an answer at once.
use vermay_agent.Prelude.{
  ℕ, ◌+◌, ◌*◌, ◌≤◌, ◌≡◌, refl, true, false, none, some, is_some, List, [], ◌∷◌, map, length-map,
}
use vermay_agent.Json.{end}
use vermay_agent.Runtime.Policy.{
  ExecutionPolicy, absent, bool, int, negative, PolicyDict, is_policy, to_dict, from_dict,
  elapsed_limit, positive_float_or_none, positive_int,
}
use vermay_agent.Runtime.State.{
  Call, ToolMessage, Message, prompt, call_model, build_initial_state, model_call_limit,
  policy_from_state, policy_of, route_after_model,
}
use vermay_agent.Runtime.Nodes.{
  ModelAnswer, responded, Input, call_model_asking, call_model_node, model_limit, answer_of,
  take_response,
}
use vermay_agent.Runtime.Graph.{at, finished, run, step, run_node, after_node, next_node}
use vermay_agent.Runtime.State.{ai, tool}
use vermay_agent.Runtime.Nodes.{latest_tool_messages}
use vermay_agent.Runtime.LatestBlock.{last_block, latest_tool_messages-last_block}
use vermay_agent.Runtime.Checkpoint.{from_dict-to_dict, is_policy-from_dict}
use vermay_agent.Runtime.Budget.{AnswersCalls}
use vermay_agent.Runtime.Spending.{over_run, model_requests, tool_runs}
use vermay_agent.Runtime.Bounds.{state_of, initial, run_within_budget, finished_with_reason}
use vermay_agent.Runtime.Halting.Loops.{halted, run_halts}

abbrev pub two_loops : ExecutionPolicy
two_loops = record {
  max_model_calls = 2;
  max_tool_calls = 8;
  max_failures = 2;
  max_tool_argument_corrections = 1;
  max_loop_steps = 2;
  max_elapsed_seconds = some 600;
}

abbrev pub answer_call : Call → ToolMessage
answer_call c = record { tool_call_id = c.id; name = c.name; is_error = false; structured = none }

abbrev pub reading : ModelAnswer → Input
reading m = record {
  now = 0;
  now_after = 0;
  cancelled = false;
  cancelled_after = false;
  model = m;
  declares_call = false;
  gate = none;
  reference = λ c. none;
  tool_messages = map answer_call;
  approvals = [];
  user_input = none;
}

abbrev lookup_call : Call
lookup_call = record { id = "call-1"; name = "lookup"; args = end }

abbrev always_calls : ℕ → Input
always_calls k = reading (responded "" (lookup_call ∷ []))

abbrev always_answers : ℕ → Input
always_answers k = reading (responded "done" [])

abbrev pub question : List Message
question = prompt "hello" ∷ []

pub reading-AnswersCalls : (m : ModelAnswer) → AnswersCalls (reading m)
reading-AnswersCalls m = record { one_each = λ calls. length-map answer_call calls }

pub two_loops-valid : is_policy two_loops ≡ true
unfolding is_policy
two_loops-valid = refl

from_dict-to_dict_example : from_dict (to_dict two_loops) ≡ two_loops
from_dict-to_dict_example = from_dict-to_dict two_loops two_loops-valid

abbrev bad_entries : PolicyDict
bad_entries = record {
  max_model_calls = int 0;
  max_tool_calls = negative 3;
  max_failures = bool true;
  max_tool_argument_corrections = absent;
  max_loop_steps = int 7;
  max_elapsed_seconds = int 0;
}

is_policy-from_dict_example : is_policy (from_dict bad_entries) ≡ true
is_policy-from_dict_example = is_policy-from_dict bad_entries

run_within_budget_example :
    (over_run model_requests 14 always_calls 0 (initial question two_loops 0) ≤ 2)
    × (over_run tool_runs 14 always_calls 0 (initial question two_loops 0) ≤ 8)
    × ((state_of (run 14 always_calls 0 (initial question two_loops 0))).loop_index ≤ 3)
run_within_budget_example =
    run_within_budget two_loops question 0 always_calls two_loops-valid
      (λ j. reading-AnswersCalls (responded "" (lookup_call ∷ []))) 14

answers_at_once :
    run 1 always_answers 0 (at call_model (build_initial_state question two_loops 0))
    ≡ finished (take_response "done" [] (build_initial_state question two_loops 0))
unfolding run step run_node after_node next_node call_model_node call_model_asking model_limit
    answer_of take_response build_initial_state model_call_limit elapsed_limit policy_from_state
    policy_of from_dict positive_float_or_none to_dict positive_int route_after_model
answers_at_once = refl

finished_with_reason_example :
    is_some (take_response "done" [] (build_initial_state question two_loops 0)).stop_reason ≡ true
finished_with_reason_example =
    finished_with_reason two_loops question 0 always_answers two_loops-valid
      (λ j. reading-AnswersCalls (responded "done" [])) 1
      (take_response "done" [] (build_initial_state question two_loops 0)) answers_at_once

run_halts_example :
    halted
      (run (6 * 2 + 6) always_calls 0 (at call_model (build_initial_state question two_loops 0)))
    ≡ true
run_halts_example = run_halts two_loops question 0 always_calls two_loops-valid

abbrev two_blocks : List Message
two_blocks =
    prompt "hello"
    ∷ tool (answer_call lookup_call)
    ∷ ai "" (lookup_call ∷ [])
    ∷ tool (answer_call lookup_call)
    ∷ tool (answer_call lookup_call)
    ∷ prompt "go on"
    ∷ []

latest_tool_messages-last_block_example :
    latest_tool_messages two_blocks ≡ last_block two_blocks [] false
latest_tool_messages-last_block_example = latest_tool_messages-last_block two_blocks
