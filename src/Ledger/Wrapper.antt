-- ===== src/Ledger/Wrapper.antt =====
-- vermay/langgraph_runtime/nodes.py: `tool_call_wrapper`, which takes one tool call past the ledger and
-- runs the tool.
use vermay_agent.Prelude.{String, Bool, not, Option, none, some, if◌then◌else◌}
use vermay_agent.Exec.{Error, Result, ok, err, Exec, pure, ◌>>=◌, ◌>>◌}
use vermay_agent.Store.{Store, TaskRecord}
use vermay_agent.Ledger.{
  ToolInvocationReference, ToolInvocationExecution, ToolCall, ToolResponse, prepare,
  begin_execution, finish_execution, mark_execution_uncertain, cancel,
}

-- What `execute(request)` comes to.
pub data Executed : Type 0 where
  returned : ToolResponse → Executed
  raised : String → Executed

-- One call of the wrapper: whether there is a recorder; whether the control plane has cancelled the
-- run, before the invocation is prepared and before it begins; the reference that the decision of the
-- permission check carries; what `prepare` reads; what the tool does; and `str` of an exception.
pub record Attempt : Type 0 where
  pub recorded : Bool
  pub cancelled : Bool
  pub cancelled_later : Bool
  pub cancellation : String
  pub reference : Option ToolInvocationReference
  pub call : ToolCall
  pub invocation_id : TaskRecord → String
  pub executed : Executed
  pub error_text : Error → String

-- The message of a blocked call, or what the tool did, with the invocation that it ran under.
pub data Answer : Type 0 where
  blocked : Option String → Answer
  ran : Option String → Executed → Answer

-- `finish_execution` has returned, or has raised.
unfoldable pub after_finish :
    Attempt → String → ToolResponse → Result (Unit {0}) × Store → Result Answer × Store
after_finish a id response (ok _, t) = (ok (ran (some id) (returned response)), t)
after_finish a id response (err e, t) =
    (mark_execution_uncertain id "tool_execution_recording_failed" (a.error_text e)
        >> pure (ran (some id) (raised (a.error_text e))))
      t

unfoldable pub finish_or_mark : Attempt → String → ToolResponse → Exec Store Answer
finish_or_mark a id response s = after_finish a id response (finish_execution id response s)

-- The tool runs, and its outcome is written down.
unfoldable pub recorded_execution : Attempt → String → Exec Store Answer
recorded_execution a id = elim a.executed [
  | returned response ↦ finish_or_mark a id response
  | raised text ↦
      mark_execution_uncertain id "tool_execution_exception" text
      >> pure (ran (some id) (raised text))
]

unfoldable pub if_granted : Attempt → String → ToolInvocationExecution → Exec Store Answer
if_granted a id execution =
    if not execution.execute then pure (blocked execution.message) else recorded_execution a id

unfoldable pub with_reference : Attempt → Option ToolInvocationReference → Exec Store Answer
with_reference a none = pure (ran none a.executed)
with_reference a (some reference) =
    if reference.execution_blocked
    then pure (blocked reference.blocked_reason)
    else (if a.cancelled_later
        then cancel reference.invocation_id a.cancellation >> pure (blocked (some a.cancellation))
        else begin_execution reference.invocation_id >>= if_granted a reference.invocation_id)

unfoldable pub cancel_reference : Attempt → Option ToolInvocationReference → Exec Store Answer
cancel_reference a none = pure (blocked (some a.cancellation))
cancel_reference a (some reference) =
    cancel reference.invocation_id a.cancellation >> pure (blocked (some a.cancellation))

unfoldable pub prepare_unless_known :
    Attempt → Option ToolInvocationReference → Exec Store (Option ToolInvocationReference)
prepare_unless_known a none = prepare a.call a.invocation_id
prepare_unless_known a (some reference) = pure (some reference)

unfoldable pub tool_call_wrapper : Attempt → Exec Store Answer
tool_call_wrapper a =
    if not a.recorded
    then (if a.cancelled then pure (blocked (some a.cancellation)) else pure (ran none a.executed))
    else (if a.cancelled
        then cancel_reference a a.reference
        else prepare_unless_known a a.reference >>= with_reference a)
