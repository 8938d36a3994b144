-- ===== src/Runtime/Policy.antt =====
-- vermay/langgraph_runtime/execution.py: `ExecutionPolicy`, its dictionary in the checkpoint, and the
-- limits. Seconds are natural multiples of the clock's resolution. The texts of the messages are
-- left out.
use vermay_agent.Prelude.{
  ℕ, ◌-◌, ◌*◌, Bool, true, ◌&&◌, Option, none, some, ltb, leb, if◌then◌else◌,
}

pub data ExecutionStopReason : Type 0 where
  completed input_required approval_required budget_exhausted : ExecutionStopReason
  repeated_failure policy_blocked canceled environment_failure : ExecutionStopReason
  tool_argument_error : ExecutionStopReason

pub record ExecutionPolicy : Type 0 where
  pub max_model_calls : ℕ
  pub max_tool_calls : ℕ
  pub max_failures : ℕ
  pub max_tool_argument_corrections : ℕ
  pub max_loop_steps : ℕ
  pub max_elapsed_seconds : Option ℕ

-- A value of a dictionary that a checkpoint gives back; `negative n` is `-(n + 1)`.
pub data Value : Type 0 where
  absent other : Value
  bool : Bool → Value
  int negative float : ℕ → Value

-- `value.get` of the six keys.
pub record PolicyDict : Type 0 where
  pub max_model_calls : Value
  pub max_tool_calls : Value
  pub max_failures : Value
  pub max_tool_argument_corrections : Value
  pub max_loop_steps : Value
  pub max_elapsed_seconds : Value

-- The checks of `__post_init__`.
abbrev pub is_positive? : Option ℕ → Bool
is_positive? none = true
is_positive? (some n) = ltb 0 n

unfoldable pub is_policy : ExecutionPolicy → Bool
is_policy p =
    leb 1 p.max_model_calls
    && leb 1 p.max_failures
    && leb 1 p.max_loop_steps
    && is_positive? p.max_elapsed_seconds

abbrev pub max : ℕ → ℕ → ℕ
max a b = if leb a b then b else a

-- With the defaults of the other arguments; `none` for the `ValueError`.
unfoldable pub from_max_loops : ℕ → Option ExecutionPolicy
from_max_loops max_loops =
    if ltb max_loops 1
    then none
    else some (record {
      max_model_calls = max_loops;
      max_tool_calls = max 8 (max_loops * 4);
      max_failures = 2;
      max_tool_argument_corrections = 1;
      max_loop_steps = max_loops;
      max_elapsed_seconds = none;
    })

unfoldable pub positive_int : Value → ℕ → ℕ
positive_int (int n) default = if ltb 0 n then n else default
positive_int _ default = default

unfoldable pub non_negative_int : Value → ℕ → ℕ
non_negative_int (int n) default = n
non_negative_int _ default = default

unfoldable pub positive_float_or_none : Value → Option ℕ
positive_float_or_none (int n) = if ltb 0 n then some n else none
positive_float_or_none (float n) = if ltb 0 n then some n else none
positive_float_or_none _ = none

abbrev pub seconds_value : Option ℕ → Value
seconds_value none = absent
seconds_value (some n) = float n

unfoldable pub to_dict : ExecutionPolicy → PolicyDict
to_dict p = record {
  max_model_calls = int p.max_model_calls;
  max_tool_calls = int p.max_tool_calls;
  max_failures = int p.max_failures;
  max_tool_argument_corrections = int p.max_tool_argument_corrections;
  max_loop_steps = int p.max_loop_steps;
  max_elapsed_seconds = seconds_value p.max_elapsed_seconds;
}

unfoldable pub from_dict : PolicyDict → ExecutionPolicy
from_dict d = record {
  max_model_calls = positive_int d.max_model_calls 5;
  max_tool_calls = non_negative_int d.max_tool_calls 20;
  max_failures = positive_int d.max_failures 2;
  max_tool_argument_corrections = non_negative_int d.max_tool_argument_corrections 1;
  max_loop_steps = positive_int d.max_loop_steps 5;
  max_elapsed_seconds = positive_float_or_none d.max_elapsed_seconds;
}

-- The entries of `ExecutionLimit.detail`.
pub data LimitName : Type 0 where
  limit_model_calls limit_tool_calls limit_failures limit_loop_steps : LimitName
  limit_elapsed limit_argument_corrections control_plane_cancellation : LimitName

pub record ExecutionLimit : Type 0 where
  pub reason : ExecutionStopReason
  pub limit : LimitName
  pub limit_value : ℕ
  pub observed_value : ℕ

-- `_elapsed_limit` at the time `now` of an execution that began at `started`
unfoldable pub elapsed_limit : ExecutionPolicy → ℕ → ℕ → Option ExecutionLimit
elapsed_limit policy started now = elim policy.max_elapsed_seconds [
  | none ↦ none
  | some allowed ↦
      if leb (now - started) allowed
      then none
      else some (record {
        reason = budget_exhausted;
        limit = limit_elapsed;
        limit_value = allowed;
        observed_value = now - started;
      })
]

-- `a or b`
abbrev pub or_limit : Option ExecutionLimit → Option ExecutionLimit → Option ExecutionLimit
or_limit none b = b
or_limit (some a) b = some a

abbrev pub limit_if : Bool → ExecutionStopReason → LimitName → ℕ → ℕ → Option ExecutionLimit
limit_if reached reason limit value observed =
    if reached
    then some
        (record { reason = reason; limit = limit; limit_value = value; observed_value = observed })
    else none
