-- ===== src/Runtime/Nodes/Answers.antt =====
-- vermay/langgraph_runtime/nodes.py: the nodes that wait for an answer, and the one that rejects.
use Prim.Native.String.{◌++◌ as text_append}
use vermay_agent.Prelude.{
  String, false, Option, none, some, List, [], ◌∷◌, ◌++◌, select, truthy, if◌then◌else◌,
}
use vermay_agent.Json.{end}
use vermay_agent.Runtime.Policy.{policy_blocked}
use vermay_agent.Runtime.State.{
  Call, Message, tool, approval_required, Decision, Permission, Approval, StopDetail,
  approval_rejected, permission_denied, AgentState,
}
use vermay_agent.Runtime.Nodes.Reading.{Input, NodeResult, clear_pause, updated, paused}
use vermay_agent.Runtime.Nodes.Permission.{status_is}

-- The interrupts of the decisions in turn, each with the answer it was resumed with.
unfoldable pub ask_approvals : List Decision → List Approval → Approval → Option Approval
ask_approvals [] answers last = some last
ask_approvals (d ∷ ds) [] last = none
ask_approvals (d ∷ ds) (a ∷ answers) last =
    let later = ask_approvals ds answers a in if a.approved then later else some a

unfoldable pub pending_approvals : Option Permission → List Decision
pending_approvals none = []
pending_approvals (some p) = elim (select (status_is approval_required) p.decisions) [
  | d ∷ ds ↦ d ∷ ds
  | [] ↦ elim p.tool_call [
    | none ↦ []
    | some c ↦
        record {
          status = p.status;
          reason = p.reason;
          call = c;
          invocation_id = none;
          execution_blocked = false;
        }
        ∷ []
  ]
]

unfoldable pub approval_required_node : Input → AgentState → NodeResult
approval_required_node i st =
    elim (ask_approvals (pending_approvals st.permission) i.approvals
      (record { approved = false; reason = "approval rejected" })) [
        | none ↦ paused
        | some a ↦ updated (clear_pause (record st { approval = some a }))
      ]

-- The answer to the call that asked, and a deferral to each other call.
unfoldable pub input_messages : List Call → List Message
input_messages [] = []
input_messages (c ∷ calls) =
    tool (record {
      tool_call_id = if truthy c.id then c.id else c.name;
      name = if truthy c.name then c.name else "tool";
      is_error = false;
      structured = none;
    })
    ∷ input_messages calls

abbrev pub call_or_empty : Option Call → Call
call_or_empty none = record { id = ""; name = ""; args = end }
call_or_empty (some c) = c

-- `permission.get("tool_calls") or [tool_call]`
abbrev pub permitted_calls : Option Permission → List Call
permitted_calls none = call_or_empty none ∷ []
permitted_calls (some p) = elim p.tool_calls [
  | [] ↦ call_or_empty p.tool_call ∷ []
  | c ∷ calls ↦ c ∷ calls
]

unfoldable pub user_input_required_node : Input → AgentState → NodeResult
user_input_required_node i st = elim i.user_input [
  | none ↦ paused
  | some _ ↦ updated (
      clear_pause
        (record st { messages = st.messages ++ input_messages (permitted_calls st.permission) }))
]

-- `reject_tool_node`
unfoldable pub answer_with : String → StopDetail → AgentState → AgentState
answer_with text detail st = record st {
  final_answer = some text;
  stop_reason = some policy_blocked;
  stop_detail = some detail;
}

abbrev pub or_default : String → String → String
or_default s d = if truthy s then s else d

unfoldable pub reject_permission : Option Permission → AgentState → AgentState
reject_permission none st =
    answer_with "Tool call rejected: tool call rejected" (permission_denied "tool call rejected") st
reject_permission (some p) st =
    let reason = or_default p.reason "tool call rejected" in
    answer_with
      (text_append
        (elim p.status [
          | approval_required ↦ "Tool call requires approval: "
          | _ ↦ "Tool call rejected: "
        ])
        reason)
      (permission_denied reason) st

unfoldable pub reject_tool_node : Input → AgentState → NodeResult
reject_tool_node i st = updated (elim st.approval [
  | none ↦ reject_permission st.permission st
  | some a ↦
      if a.approved
      then reject_permission st.permission st
      else answer_with
          (text_append "Tool call rejected by approval: " (or_default a.reason "approval rejected"))
          (approval_rejected (or_default a.reason "approval rejected")) st
])
