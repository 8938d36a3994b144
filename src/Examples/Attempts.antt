-- ===== src/Examples/Attempts.antt =====
-- Two calls of the wrapper on one invocation.
use vermay_agent.Prelude.{◌≡◌, refl, true, false, some, none, []}
use vermay_agent.Prelude.Table.{lookup, update}
use vermay_agent.Exec.{ok}
use vermay_agent.Store.{Store}
use vermay_agent.Store.Invocations.{
  find_invocation, update_invocation, known_invocation, rewrite_invocation, begin_tool_invocation,
  mark_tool_invocation_uncertain,
}
use vermay_agent.Store.Invocations.Runs.{after_calls}
use vermay_agent.Ledger.{begin_execution, mark_execution_uncertain}
use vermay_agent.Ledger.Wrapper.{
  Attempt, Answer, blocked, ran, raised, tool_call_wrapper, prepare_unless_known, with_reference,
  if_granted, recorded_execution,
}
use vermay_agent.Ledger.Once.{ran_under, tool_call_wrapper_once}
use vermay_agent.Examples.Effects.{with_fresh, same_call}

abbrev boom : Attempt
boom = record {
  recorded = true;
  cancelled = false;
  cancelled_later = false;
  cancellation = "cancelled";
  reference = some (record {
    invocation_id = "inv-1";
    arguments_digest = "d1";
    status = "prepared";
    execution_blocked = false;
    blocked_reason = none;
  });
  call = same_call;
  invocation_id = λ _. "inv-2";
  executed = raised "boom";
  error_text = λ _. "error";
}

abbrev refused : Answer
refused =
    blocked (some "Tool invocation is already uncertain; it will not be replayed automatically.")

abbrev after_boom : Store
after_boom = (tool_call_wrapper boom with_fresh).1

first_call :
    tool_call_wrapper boom with_fresh ≡ (ok (ran (some "inv-1") (raised "boom")), after_boom)
unfolding tool_call_wrapper prepare_unless_known with_reference if_granted recorded_execution
    begin_execution mark_execution_uncertain begin_tool_invocation mark_tool_invocation_uncertain
    known_invocation rewrite_invocation update_invocation find_invocation lookup update
first_call = refl

second_call : tool_call_wrapper boom (after_calls [] after_boom) ≡ (ok refused, after_boom)
unfolding tool_call_wrapper prepare_unless_known with_reference if_granted recorded_execution
    begin_execution after_calls mark_execution_uncertain begin_tool_invocation
    mark_tool_invocation_uncertain known_invocation rewrite_invocation update_invocation
    find_invocation lookup update
second_call = refl

tool_call_wrapper_once_example : ¬ (ran_under refused ≡ some "inv-1")
tool_call_wrapper_once_example =
    tool_call_wrapper_once boom boom [] with_fresh after_boom after_boom
      (ran (some "inv-1") (raised "boom")) refused "inv-1" first_call refl second_call
