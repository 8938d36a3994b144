-- ===== src/Examples/Resumes.antt =====
-- A Task that waits for an approval, and one that waits for input.
use vermay_agent.Prelude.{◌≡◌, refl, true, false, some, none, [], ◌∷◌}
use vermay_agent.Prelude.Table.{lookup, remove, update, insert}
use vermay_agent.Exec.{ok}
use vermay_agent.Json.{Json, is_object, get, field, entry, str, obj, end}
use vermay_agent.Lifecycle.{input_required, queued, running}
use vermay_agent.Command.{approval, user_input, decide, input, Payload, input_from_values}
use vermay_agent.Store.{
  Store, TaskRecord, PendingContinuationRecord, ToolInvocationRecord, MessageRecord, user,
}
use vermay_agent.Store.Tasks.{find_task, no_failure}
use vermay_agent.Store.Tasks.Transition.{changed}
use vermay_agent.Store.Messages.{
  append_message, find_context, find_message, fresh_message, next_sequence, insert_message,
}
use vermay_agent.Store.Queue.{
  find_pending, find_queued, remove_pending, claim_queued_task_execution,
}
use vermay_agent.Store.Invocations.{
  row_of, decided, find_invocation, update_invocation, rewrite_invocation, known_invocation,
  get_value, resolve_bound, resolve_tool_invocation_approval,
  resolve_pending_tool_invocation_approval,
}
use vermay_agent.Core.Continuations.{
  WakeRun, start_committed_local_task, resolve_approval, MainAgentRequest, submit_task_input,
  input_message, put_entry,
}
use vermay_agent.Core.Resumes.{Waits, resolve_approval-claim, accepted_command}
use vermay_agent.Core.Inputs.{submit_task_input-claim}
use vermay_agent.Outcomes.{ErrorInfo}
use vermay_agent.Outcomes.Results.{record_local_result}
use vermay_agent.Outcomes.Settles.{HasEnded}
use vermay_agent.Core.Wakes.{refuses, resolve_approval-refused}
use vermay_agent.Lifecycle.{failed}
use vermay_agent.Examples.{answer, some_error, task_of, four_tasks, delete_file}

abbrev waiting_task : TaskRecord
waiting_task = task_of "task-2" input_required

abbrev bound_row : ToolInvocationRecord
bound_row = row_of (record delete_file { approval_required = true })

abbrev bound_request : PendingContinuationRecord
bound_request = record {
  task_id = "task-2";
  kind = "approval_required";
  input_request =
      field "invocationId" (str "inv-1")
        (field "toolName" (str "delete_file") (entry "argumentsDigest" (str "d1")));
}

abbrev waits_for_approval : Store
waits_for_approval = record four_tasks {
  tasks = waiting_task ∷ [];
  pending = bound_request ∷ [];
  invocations = bound_row ∷ [];
}

approval-Waits : Waits waiting_task bound_request "approval_required" waits_for_approval
unfolding find_task find_pending find_queued lookup
approval-Waits = record {
  stored = refl;
  local = refl;
  waiting = refl;
  pending = refl;
  asked = refl;
  idle = refl;
}

abbrev approved_row : ToolInvocationRecord
approved_row = decided true (some "fine") bound_row

abbrev after_decision : Store
after_decision = record four_tasks {
  tasks = waiting_task ∷ [];
  pending = [];
  invocations = approved_row ∷ [];
}

decision_taken :
    resolve_pending_tool_invocation_approval "task-2" bound_request.input_request true
      (some "fine")
      (remove_pending "task-2" waits_for_approval)
    ≡ (ok (some approved_row), after_decision)
unfolding resolve_pending_tool_invocation_approval resolve_bound get_value get
    resolve_tool_invocation_approval known_invocation rewrite_invocation find_invocation
    update_invocation remove_pending lookup update remove
decision_taken = refl

resolve_approval-claim_example :
    (after later : Store) × (resolve_approval true none "task-2" true
        (some "fine")
        waits_for_approval
      ≡ start_committed_local_task none (changed queued no_failure waiting_task) after)
    × (find_task "task-2" after ≡ some (changed queued no_failure waiting_task))
    × (find_pending "task-2" after ≡ none)
    × (claim_queued_task_execution "task-2" after ≡ (
      ok (
          some (
            changed running no_failure (changed queued no_failure waiting_task),
            accepted_command waiting_task approval (decide true (some "fine")),
          )),
      later,
    ))
resolve_approval-claim_example =
    resolve_approval-claim none waiting_task bound_request true (some "fine") (some approved_row)
      waits_for_approval after_decision approval-Waits decision_taken

abbrev input_wait : PendingContinuationRecord
input_wait = record { task_id = "task-2"; kind = "user_input_required"; input_request = end }

abbrev waits_for_input : Store
waits_for_input = record four_tasks { tasks = waiting_task ∷ []; pending = input_wait ∷ [] }

input-Waits : Waits waiting_task input_wait "user_input_required" waits_for_input
unfolding find_task find_pending find_queued lookup
input-Waits = record {
  stored = refl;
  local = refl;
  waiting = refl;
  pending = refl;
  asked = refl;
  idle = refl;
}

abbrev reply_part : Json
reply_part = obj (field "kind" (str "text") (entry "text" (str "blue")))

abbrev reply : MainAgentRequest
reply = record {
  context_id = some "ctx";
  message_id = "msg-2";
  role = user;
  parts = reply_part ∷ [];
  metadata = end;
}

abbrev reply_payload : Payload
reply_payload = input (reply_part ∷ []) none

payload_made : input_from_values reply.parts none ≡ ok reply_payload
unfolding input_from_values is_object
payload_made = refl

abbrev reply_message : MessageRecord
reply_message = record {
  message_id = "msg-2";
  context_id = "ctx";
  role = user;
  parts = reply_part ∷ [];
  task_id = some "task-2";
  metadata = entry "inputRequestKind" (str "user_input_required");
  context_sequence = 2;
}

abbrev after_reply : Store
after_reply = (append_message (input_message "task-2" waiting_task reply) waits_for_input).1

reply_appended :
    append_message (input_message "task-2" waiting_task reply) waits_for_input
    ≡ (ok reply_message, after_reply)
unfolding append_message find_context find_message fresh_message next_sequence insert_message
    put_entry lookup update insert
reply_appended = refl

-- A worker that claims the command at once, in this process, and brings back an answer.
abbrev answering : WakeRun
answering task_id s =
    let claimed = (claim_queued_task_execution task_id s).1 in
    (none, (record_local_result task_id answer none "msg-3" some_error claimed).1)

submit_task_input-claim_example :
    (after later : Store) × (submit_task_input true (some answering) "task-2" reply waits_for_input
      ≡ start_committed_local_task (some answering) (changed queued no_failure waiting_task) after)
    × (find_task "task-2" after ≡ some (changed queued no_failure waiting_task))
    × (find_pending "task-2" after ≡ none)
    × (claim_queued_task_execution "task-2" after ≡ (
      ok (
          some (
            changed running no_failure (changed queued no_failure waiting_task),
            accepted_command waiting_task user_input reply_payload,
          )),
      later,
    ))
submit_task_input-claim_example =
    submit_task_input-claim (some answering) waiting_task input_wait reply reply_payload
      reply_message waits_for_input after_reply input-Waits refl payload_made refl reply_appended

abbrev unreachable_worker : ErrorInfo
unreachable_worker = record {
  code = "executor_shutdown";
  message = "cannot schedule new futures after shutdown";
  retryable = false;
}

resolve_approval-refused_example :
    (v : TaskRecord) × (after : Store) × (resolve_approval true
        (some (refuses unreachable_worker))
        "task-2"
        true
        (some "fine")
        waits_for_approval
      ≡ (ok v, after))
    × HasEnded (changed queued no_failure waiting_task) failed v after
resolve_approval-refused_example =
    resolve_approval-refused unreachable_worker waiting_task bound_request true (some "fine")
      (some approved_row) waits_for_approval after_decision approval-Waits decision_taken
