-- ===== src/Runtime/Nodes/Permission.antt =====
-- vermay/langgraph_runtime/nodes.py: the node that decides on the calls.
use vermay_agent.Prelude.{
  String, ◌==◌, Bool, true, false, Option, none, some, List, [], ◌∷◌, map, select, length, truthy,
  if◌then◌else◌,
}
use vermay_agent.Runtime.Policy.{input_required as input_stop, approval_required as approval_stop}
use vermay_agent.Runtime.State.{
  Call, PermissionStatus, allowed, denied, approval_required, input_required, budget_exhausted,
  Decision, AgentState, tool_call_limit, latest_calls, calls_or_none,
}
use vermay_agent.Runtime.Nodes.Reading.{
  GateDecision, Reference, Input, NodeResult, cancellation_limit, stop_with, pause_with, stopped_or,
  updated,
}

-- The first call of the tool that asks the user.
unfoldable pub input_request : List Call → Option Call
input_request [] = none
input_request (c ∷ calls) = if c.name == "request_user_input" then some c else input_request calls

abbrev pub gate_status : GateDecision → PermissionStatus
gate_status d =
    if d.requires_approval then approval_required else if d.allowed then allowed else denied

abbrev pub or_replayed : Option String → String
or_replayed none = "Tool invocation will not be replayed automatically."
or_replayed (some r) = if truthy r then r else "Tool invocation will not be replayed automatically."

-- `_attach_invocation_reference`
unfoldable pub attach_reference : Option Reference → Decision → Decision
attach_reference none d = d
attach_reference (some r) d =
    let known = record d {
      invocation_id = some r.invocation_id;
      execution_blocked = r.execution_blocked;
    } in
    if r.execution_blocked
    then record known { status = denied; reason = or_replayed r.blocked_reason }
    else known

unfoldable pub decide : Input → PermissionStatus → String → Call → Decision
decide i status reason c = attach_reference (i.reference c) (record {
  status = status;
  reason = reason;
  call = c;
  invocation_id = none;
  execution_blocked = false;
})

unfoldable pub gate_decision : Input → (Call → GateDecision) → Call → Decision
gate_decision i gate c = decide i (gate_status (gate c)) (gate c).reason c

abbrev pub status_is : PermissionStatus → Decision → Bool
status_is allowed d = elim d.status [ allowed ↦ true | _ ↦ false ]
status_is denied d = elim d.status [ denied ↦ true | _ ↦ false ]
status_is approval_required d = elim d.status [ approval_required ↦ true | _ ↦ false ]
status_is input_required d = elim d.status [ input_required ↦ true | _ ↦ false ]
status_is budget_exhausted d = elim d.status [ budget_exhausted ↦ true | _ ↦ false ]

abbrev pub permit :
    PermissionStatus → String → Option Call → List Call → List Decision → AgentState → AgentState
permit status reason call calls decisions st = record st {
  permission = some (record {
    status = status;
    reason = reason;
    tool_call = call;
    tool_calls = calls;
    decisions = decisions;
  });
}

-- The decisions of the gate, weighed: one refusal refuses all, then one approval holds all.
unfoldable pub weigh :
    List Call → List Decision → List Decision → List Decision → AgentState → AgentState
weigh calls decisions (d ∷ _) waiting st = permit denied d.reason (some d.call) calls decisions st
weigh calls decisions [] (d ∷ _) st =
    pause_with approval_stop d.call.id
      (permit approval_required d.reason (some d.call) calls decisions st)
weigh calls decisions [] [] st = permit allowed "all tool calls allowed" none calls decisions st

unfoldable pub gate_calls : Input → List Call → AgentState → AgentState
gate_calls i calls st = elim i.gate [
  | none ↦
      permit allowed "no permission gate configured" none calls
        (map (decide i allowed "no permission gate configured") calls) st
  | some gate ↦
      let decisions = map (gate_decision i gate) calls in
      weigh calls decisions (select (status_is denied) decisions)
        (select (status_is approval_required) decisions) st
]

unfoldable pub permit_calls : Input → List Call → AgentState → AgentState
permit_calls i [] st = permit denied "missing tool call" none [] [] st
permit_calls i (c ∷ calls) st = elim (input_request (c ∷ calls)) [
  | some request ↦ pause_with input_stop request.id (
      permit input_required "the model requires additional user input" (some request) (c ∷ calls) []
        st)
  | none ↦ elim (tool_call_limit st i.now (length (c ∷ calls))) [
    | some limit ↦ stop_with limit (permit budget_exhausted "" none (c ∷ calls) [] st)
    | none ↦ gate_calls i (c ∷ calls) st
  ]
]

unfoldable pub check_permission_node : Input → AgentState → NodeResult
check_permission_node i st =
    stopped_or (cancellation_limit i.cancelled) st
      (updated (permit_calls i (calls_or_none (latest_calls st.messages)) st))
