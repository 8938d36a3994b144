-- ===== src/Core/Continuations.antt =====
-- vermay/main_agent/core.py: an interrupted Task goes on with an approval (`_resolve_approval`) or with
-- input (`_submit_task_input`), and its worker is woken after the commit. The id of a message without
-- one and what the adapter's `wake` does are arguments.
use vermay_agent.Prelude.{
  String, ◌==◌, Bool, true, false, not, ◌&&◌, ◌||◌, Option, none, some, is_some, List, [], truthy,
  opt_eq, if◌then◌else◌,
}
use vermay_agent.Exec.{
  Exec, Result, ok, pure, gets, lift, require, transaction, raise_if, ◌>>=◌, ◌>>◌, unknown_task,
  not_waiting, no_request, waits_for_other, delegated_continuation, context_mismatch,
  runner_missing, input_role, input_parts,
}
use vermay_agent.Json.{Json, bool, str, Fields, end, field, entry, get, json_truthy}
use vermay_agent.Lifecycle.{
  TaskStatus, input_required, auth_required, cancel_requested, queued, is_terminal, status_eq,
}
use vermay_agent.Command.{
  CommandKind, approval, user_input, Payload, decide, input_from_values,
  local_execution_command_version,
}
use vermay_agent.Store.{Store, TaskRecord, MessageRole, user}
use vermay_agent.Outcomes.{ErrorInfo, record_failure}
use vermay_agent.Store.Tasks.{
  find_task, get_task, append_task_event, transition_local_task, no_failure,
}
use vermay_agent.Store.Messages.{NewMessage, append_message, role_eq}
use vermay_agent.Store.Queue.{find_pending, consume_pending_continuation, enqueue_task_execution}
use vermay_agent.Store.Invocations.{resolve_pending_tool_invocation_approval}

-- `status in {INPUT_REQUIRED, AUTH_REQUIRED}`
abbrev pub is_waiting : TaskStatus → Bool
is_waiting input_required = true
is_waiting auth_required = true
is_waiting _ = false

unfoldable pub validate_pending_continuation : String → String → String → Exec Store TaskRecord
validate_pending_continuation task_id expected_kind operation = do
  found ← get_task task_id
  task ← require found (unknown_task task_id)
  raise_if (is_terminal task.status || status_eq task.status cancel_requested)
      (not_waiting operation task_id)
  raise_if (not (is_waiting task.status)) (not_waiting operation task_id)
  waiting ← gets (find_pending task_id)
  pending ← require waiting (no_request expected_kind task_id)
  raise_if (not (pending.kind == expected_kind)) (waits_for_other expected_kind task_id)
  pure task

-- `bool(resume_payload.get("approved"))`
abbrev pub approved_in : Fields → Bool
approved_in payload = elim (get "approved" payload) [ none ↦ false | some v ↦ json_truthy v ]

-- The reason, which both callers give as a text.
abbrev pub text_in : Option Json → Option String
text_in (some (str reason)) = if truthy reason then some reason else none
text_in _ = none

unfoldable pub resolve_if_approval : String → String → Fields → Fields → Exec Store Unit
resolve_if_approval task_id expected_kind input_request payload =
    if expected_kind == "approval_required"
    then resolve_pending_tool_invocation_approval task_id input_request (approved_in payload)
        (text_in (get "reason" payload))
      >> pure tt
    else pure tt

unfoldable pub accept_pending_continuation :
    String → String → Fields → String → CommandKind → Payload → Exec Store TaskRecord
accept_pending_continuation task_id expected_kind resume_payload operation kind payload = do
  validate_pending_continuation task_id expected_kind operation
  pending ← consume_pending_continuation task_id expected_kind
  resolve_if_approval task_id expected_kind pending.input_request resume_payload
  append_task_event task_id "task_resumed" none (some resume_payload)
  task ← transition_local_task task_id queued none no_failure
  enqueue_task_execution task.task_id kind task.runtime_thread_id (some payload)
      local_execution_command_version
  pure task

-- `task is not None and task.assigned_agent_id is not None`
abbrev pub is_delegated : Option TaskRecord → Bool
is_delegated none = false
is_delegated (some task) = is_some task.assigned_agent_id

abbrev pub decision_payload : Bool → Option String → Fields
decision_payload approved none = entry "approved" (bool approved)
decision_payload approved (some reason) =
    if truthy reason
    then field "approved" (bool approved) (entry "reason" (str reason))
    else entry "approved" (bool approved)

-- `wake` of the adapter: what it does to the store, and what vermay/errors.py reads off its exception,
-- if it raises.
abbrev pub WakeRun : Type 0
WakeRun = String → Store → Option ErrorInfo × Store

abbrev pub stored_or : TaskRecord → Option TaskRecord → TaskRecord
stored_or task none = task
stored_or task (some stored) = stored

unfoldable pub after_wake : TaskRecord → Option ErrorInfo × Store → Result TaskRecord × Store
after_wake task (some info, s) = record_failure task.task_id info s
after_wake task (none, s) = (ok (stored_or task (find_task task.task_id s)), s)

-- No adapter is configured, or there is one.
unfoldable pub start_committed_local_task : Option WakeRun → TaskRecord → Exec Store TaskRecord
start_committed_local_task none task s = (ok task, s)
start_committed_local_task (some wake) task s = after_wake task (wake task.task_id s)

unfoldable pub resolve_approval :
    Bool → Option WakeRun → String → Bool → Option String → Exec Store TaskRecord
resolve_approval has_runner wake task_id approved reason = do
  task ← get_task task_id
  raise_if (is_delegated task) (delegated_continuation task_id)
  raise_if (not has_runner) runner_missing
  accepted ← transaction (
      accept_pending_continuation task_id "approval_required" (decision_payload approved reason)
        "approval" approval (decide approved reason))
  start_committed_local_task wake accepted

-- `{**metadata, key: value}`
unfoldable pub put_entry : String → Json → Fields → Fields
put_entry key value end = entry key value
put_entry key value (field k v fields) =
    let rest = put_entry key value fields in
    if k == key then field k value fields else field k v rest

-- `MainAgentRequest`, with the id that a message without one gets.
pub record MainAgentRequest : Type 0 where
  pub context_id : Option String
  pub message_id : String
  pub role : MessageRole
  pub parts : List Json
  pub metadata : Fields

abbrev pub no_parts : List Json → Bool
no_parts [] = true
no_parts _ = false

-- `metadata or None`
abbrev pub metadata_or_none : Fields → Option Fields
metadata_or_none end = none
metadata_or_none (field k v fields) = some (field k v fields)

abbrev pub input_message : String → TaskRecord → MainAgentRequest → NewMessage
input_message task_id task request = record {
  message_id = request.message_id;
  context_id = task.context_id;
  role = user;
  parts = request.parts;
  task_id = some task_id;
  metadata = put_entry "inputRequestKind" (str "user_input_required") request.metadata;
}

unfoldable pub accept_input : String → MainAgentRequest → Payload → Exec Store TaskRecord
accept_input task_id request payload = do
  task ← validate_pending_continuation task_id "user_input_required" "input"
  raise_if (is_some request.context_id && not (opt_eq request.context_id (some task.context_id)))
      (context_mismatch task_id)
  message ← append_message (input_message task_id task request)
  append_task_event task_id "task_input_submitted" none
      (some (entry "message_id" (str message.message_id)))
  accept_pending_continuation task_id "user_input_required"
      (entry "input_message_id" (str message.message_id)) "input" user_input payload

unfoldable pub submit_task_input :
    Bool → Option WakeRun → String → MainAgentRequest → Exec Store TaskRecord
submit_task_input has_runner wake task_id request = do
  raise_if (not (role_eq request.role user)) input_role
  raise_if (no_parts request.parts) input_parts
  task ← get_task task_id
  raise_if (is_delegated task) (delegated_continuation task_id)
  raise_if (not has_runner) runner_missing
  payload ← lift (input_from_values request.parts (metadata_or_none request.metadata))
  accepted ← transaction (accept_input task_id request payload)
  start_committed_local_task wake accepted
