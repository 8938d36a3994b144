-- ===== src/Examples/Queues.antt =====
-- Queued commands on concrete stores.
use vermay_agent.Prelude.{◌≡◌, refl, some, none, [], ◌∷◌}
use vermay_agent.Prelude.Table.{lookup, insert}
use vermay_agent.Exec.{ok}
use vermay_agent.Json.{is_object, arr, null, Fields, entry, str, obj, field, items, all_objects}
use vermay_agent.Lifecycle.{queued, running}
use vermay_agent.Command.{
  initial, user_input, input, start, payload_to_dict, payload_from_dict,
  local_execution_command_version, Payload,
}
use vermay_agent.Command.Roundtrip.{payload_from_dict-payload_to_dict, is_built}
use vermay_agent.Store.{Store, TaskRecord}
use vermay_agent.Store.Tasks.{find_task, get_task, no_failure}
use vermay_agent.Store.Tasks.Transition.{changed}
use vermay_agent.Store.Queue.{
  find_queued, queued_from_row, decode_queued, get_queued_task_execution, insert_queued,
  normalized_payload, put_queued, claim_queued_task_execution, QueuedTaskExecutionRecord,
  enqueue_task_execution,
}
use vermay_agent.Store.Queue.Claim.{claim_queued_task_execution_lem, claim_once, claimed_store}
use vermay_agent.Store.Queue.Enqueue.{enqueue-claim}
use vermay_agent.Prelude.{eq_iff, arith, String}
use vermay_agent.Exec.{err, no_pending, wrong_pending}
use vermay_agent.Store.{PendingContinuationRecord}
use vermay_agent.Store.Queue.{
  set_pending_continuation, write_pending, find_pending, remove_pending,
  consume_pending_continuation,
}
use vermay_agent.Store.Queue.Pending.{set_pending_continuation-consume}
use vermay_agent.Examples.{task_of, four_tasks, one_command}

abbrev first_command : QueuedTaskExecutionRecord
first_command = record {
  task_id = "task-1";
  kind = initial;
  runtime_thread_id = "thread";
  command_version = 1;
  payload = start;
}

abbrev waiting : TaskRecord
waiting = task_of "task-1" queued

abbrev after_claim : Store
after_claim = claimed_store waiting one_command

claim_queued_task_execution_lem_example :
    claim_queued_task_execution "task-1" one_command
    ≡ (ok (some (changed running no_failure waiting, first_command)), after_claim)
unfolding find_task lookup find_queued decode_queued queued_from_row payload_from_dict
claim_queued_task_execution_lem_example = claim_queued_task_execution_lem "task-1" one_command

claim_once_example :
    (find_task "task-1" after_claim ≡ some (changed running no_failure waiting))
    × (running ≡ running)
    × (find_queued "task-1" after_claim ≡ none)
    × (claim_queued_task_execution "task-1" after_claim ≡ (ok none, after_claim))
claim_once_example =
    claim_once "task-1" one_command after_claim (changed running no_failure waiting) first_command
      claim_queued_task_execution_lem_example

enqueue-claim_example :
    (t : TaskRecord) × (find_task "task-1" four_tasks ≡ some t)
    × (claim_queued_task_execution "task-1" one_command
        ≡ (ok (some (changed running no_failure t, first_command)), claimed_store t one_command))
unfolding enqueue_task_execution get_task find_task lookup normalized_payload payload_to_dict
    get_queued_task_execution decode_queued find_queued put_queued insert_queued insert
    queued_from_row payload_from_dict
enqueue-claim_example =
    enqueue-claim "task-1" initial "thread" none 1 first_command four_tasks one_command refl

abbrev typed_input : Payload
typed_input = input (obj (entry "text" (str "yes")) ∷ []) none

abbrev typed_fields : Fields
typed_fields =
    field "parts" (arr (items (obj (entry "text" (str "yes")) ∷ []))) (entry "metadata" null)

payload_from_dict-payload_to_dict_example :
    payload_from_dict user_input local_execution_command_version typed_fields ≡ ok typed_input
unfolding is_built all_objects is_object payload_to_dict items
payload_from_dict-payload_to_dict_example =
    payload_from_dict-payload_to_dict user_input typed_input typed_fields refl refl

abbrev approval_wait : PendingContinuationRecord
approval_wait = record {
  task_id = "task-2";
  kind = "approval_required";
  input_request = entry "kind" (str "approval_required");
}

abbrev after_wait : Store
after_wait = record four_tasks { pending = approval_wait ∷ [] }

abbrev input_kind : String
input_kind = "user_input_required"

kinds_differ : ¬ (approval_wait.kind ≡ input_kind)
kinds_differ e = let same = (eq_iff approval_wait.kind input_kind).1 e in ground (arith, same)

was_set : set_pending_continuation approval_wait four_tasks ≡ (ok tt, after_wait)
unfolding set_pending_continuation get_task find_task lookup write_pending find_pending insert
was_set = refl

set_pending_continuation-consume_example :
    (consume_pending_continuation "task-2" "approval_required" after_wait
      ≡ (ok approval_wait, remove_pending "task-2" after_wait))
    × (consume_pending_continuation "task-2" "approval_required"
          (remove_pending "task-2" after_wait)
        ≡ (err (no_pending "approval_required" "task-2"), remove_pending "task-2" after_wait))
    × (consume_pending_continuation "task-2" "user_input_required" after_wait
        ≡ (err (wrong_pending "user_input_required" "task-2"), after_wait))
set_pending_continuation-consume_example =
    set_pending_continuation-consume approval_wait input_kind four_tasks after_wait was_set
      kinds_differ
