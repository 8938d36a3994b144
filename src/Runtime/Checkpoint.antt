-- ===== src/Runtime/Checkpoint.antt =====
-- vermay/langgraph_runtime/execution.py: the policy of a run in the dictionary of its checkpoint.
use vermay_agent.Prelude.{ℕ, ◌≡◌, refl, true, Option, none, some, leb, arith}
use vermay_agent.Runtime.Policy.{
  ExecutionPolicy, Value, absent, other, bool, int, negative, float, PolicyDict, is_policy,
  is_positive?, to_dict, from_dict, seconds_value, positive_int, non_negative_int,
  positive_float_or_none,
}

seconds-kept :
    (seconds : Option ℕ)
    → is_positive? seconds ≡ true
    → positive_float_or_none (seconds_value seconds) ≡ seconds
unfolding positive_float_or_none
seconds-kept none h = refl
seconds-kept (some n) h = rw h refl

record_of_parts :
    (p q : ExecutionPolicy)
    → p.max_model_calls ≡ q.max_model_calls
    → p.max_tool_calls ≡ q.max_tool_calls
    → p.max_failures ≡ q.max_failures
    → p.max_tool_argument_corrections ≡ q.max_tool_argument_corrections
    → p.max_loop_steps ≡ q.max_loop_steps
    → p.max_elapsed_seconds ≡ q.max_elapsed_seconds
    → p ≡ q
record_of_parts p q a b c d e f = cc

-- For a policy that passes its checks, `from_dict` of its `to_dict` is the policy itself.
pub from_dict-to_dict : (p : ExecutionPolicy) → is_policy p ≡ true → from_dict (to_dict p) ≡ p
unfolding from_dict to_dict is_policy positive_int non_negative_int
from_dict-to_dict p h =
    record_of_parts (from_dict (to_dict p)) p (ground (arith, h)) refl (ground (arith, h)) refl
      (ground (arith, h)) (seconds-kept p.max_elapsed_seconds (ground (arith, h)))

positive_int-positive :
    (v : Value) (default : ℕ) → leb 1 default ≡ true → leb 1 (positive_int v default) ≡ true
unfolding positive_int
positive_int-positive absent default h = h
positive_int-positive other default h = h
positive_int-positive (bool b) default h = h
positive_int-positive (int n) default h = ground (arith, h)
positive_int-positive (negative n) default h = h
positive_int-positive (float n) default h = h

seconds-positive : (v : Value) → is_positive? (positive_float_or_none v) ≡ true
unfolding positive_float_or_none
seconds-positive absent = refl
seconds-positive other = refl
seconds-positive (bool b) = refl
seconds-positive (int n) = ground arith
seconds-positive (negative n) = refl
seconds-positive (float n) = ground arith

-- Whatever stands in the dictionary, `from_dict` gives a policy that passes the checks of
-- `ExecutionPolicy`: bad and missing entries are replaced.
pub is_policy-from_dict : (d : PolicyDict) → is_policy (from_dict d) ≡ true
unfolding is_policy from_dict
is_policy-from_dict d =
    rw
      (
        positive_int-positive d.max_model_calls 5 (ground arith),
        positive_int-positive d.max_failures 2 (ground arith),
        positive_int-positive d.max_loop_steps 5 (ground arith),
      )
      (seconds-positive d.max_elapsed_seconds)
