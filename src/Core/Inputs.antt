-- ===== src/Core/Inputs.antt =====
-- vermay/main_agent/core.py: input for a waiting Task, and the claim of the worker after it.
use mathlib.Core.Path.{subst}
use vermay_agent.Prelude.Table.{lookup}
use vermay_agent.Prelude.{
  List, [], ◌∷◌, String, ◌≡◌, ◌∙◌, sym, ap, refl, true, false, not, ◌&&◌, Option, none, some,
  is_some, arith, Bool-cases, inl, inr,
}
use vermay_agent.Exec.{ok}
use vermay_agent.Json.{Json, str, Fields, entry}
use vermay_agent.Lifecycle.{queued, running}
use vermay_agent.Command.{Payload, payload_to_dict}
use vermay_agent.Command.Roundtrip.{is_built}
use vermay_agent.Store.{
  Store, TaskRecord, task_key, queued_key, pending_key, PendingContinuationRecord,
}
use vermay_agent.Store.Tasks.{find_task, get_task, insert_event, no_failure}
use vermay_agent.Store.Tasks.Transition.{changed, append_task_event_lem}
use vermay_agent.Store.Queue.{
  find_pending, find_queued, remove_pending, claim_queued_task_execution,
}
use vermay_agent.Store.Queue.Claim.{claimed_store}
use vermay_agent.Store.Invocations.Approvals.{SameTasks}
use vermay_agent.Core.Continuations.{resolve_if_approval, accept_pending_continuation}
use vermay_agent.Json.{all_objects}
use vermay_agent.Command.{user_input, input, input_from_values}
use vermay_agent.Store.{user, MessageRecord}
use vermay_agent.Store.Messages.{
  NewMessage, append_message, fresh_message, replayed_message, next_sequence, insert_message,
}
use vermay_agent.Store.Invocations.Approvals.{SameTasks-refl}
use vermay_agent.Core.Continuations.{
  MainAgentRequest, no_parts, metadata_or_none, input_message, accept_input, submit_task_input,
  WakeRun, start_committed_local_task,
}
use vermay_agent.Core.Resumes.{
  Waits, validate_lem, accept_lem, claimed_lem, accepted_store, accepted_command,
  SameTasks-Resolved, find_pending-accepted_store, find_task-accepted_store,
}
use vermay_agent.Prelude.{opt_eq}

SameTasks-append_message :
    (m : NewMessage) (s v : Store) (message : MessageRecord)
    → append_message m s ≡ (ok message, v)
    → SameTasks s v
unfolding append_message fresh_message replayed_message next_sequence insert_message
SameTasks-append_message m s v message h = ground (arith, h)

abbrev submitted_store : TaskRecord → MessageRecord → Store → Store
submitted_store t message v =
    insert_event t.task_id "task_input_submitted" none t.lifecycle_revision
      (entry "message_id" (str message.message_id)) v

Waits-same :
    (t : TaskRecord) (r : PendingContinuationRecord) (kind : String) (s v : Store)
    (message : MessageRecord)
    → Waits t r kind s
    → SameTasks s v
    → Waits t r kind (submitted_store t message v)
unfolding find_task find_queued find_pending insert_event
Waits-same t r kind s v message waits same = record {
  stored = ap (λ rows. lookup task_key t.task_id rows) same.tasks ∙ waits.stored;
  local = waits.local;
  waiting = waits.waiting;
  pending = ap (λ rows. lookup pending_key t.task_id rows) same.pending ∙ waits.pending;
  asked = waits.asked;
  idle = ap (λ rows. lookup queued_key t.task_id rows) same.queued ∙ waits.idle;
}

input_written :
    (parts : List Json) (metadata : Option Fields)
    → (written : Fields) × (payload_to_dict user_input (input parts metadata) ≡ ok written)
unfolding payload_to_dict
input_written parts none = (_, refl)
input_written parts (some metadata) = (_, refl)

input_checked :
    (part : Json) (parts : List Json) (metadata : Option Fields) (p : Payload)
    → input_from_values (part ∷ parts) metadata ≡ ok p
    → (p ≡ input (part ∷ parts) metadata) × (is_built (input (part ∷ parts) metadata) ≡ true)
unfolding input_from_values is_built
input_checked part parts metadata p h = elim (Bool-cases (all_objects (part ∷ parts))) [
  | inl fine ↦ (ground (arith, h, fine), fine)
  | inr bad ↦ absurd (ground (arith, h, bad))
]

input_built :
    (parts : List Json) (metadata : Option Fields) (p : Payload)
    → input_from_values parts metadata ≡ ok p
    → (is_built p ≡ true) × ((written : Fields) × (payload_to_dict user_input p ≡ ok written))
unfolding input_from_values
input_built [] metadata p h = absurd (ground (arith, h))
input_built (part ∷ parts) metadata p h =
    let (same, built) = input_checked part parts metadata p h in
    subst
      (λ q.
        (is_built q ≡ true) × ((written : Fields) × (payload_to_dict user_input q ≡ ok written)))
      (sym same) (built, input_written (part ∷ parts) metadata)

no_approval :
    (task_id : String) (request payload : Fields) (s : Store)
    → resolve_if_approval task_id "user_input_required" request payload s ≡ (ok tt, s)
unfolding resolve_if_approval
no_approval task_id request payload s = refl

parts_given :
    (parts : List Json) (metadata : Option Fields) (p : Payload)
    → input_from_values parts metadata ≡ ok p
    → no_parts parts ≡ false
unfolding input_from_values
parts_given [] metadata p h = absurd (ground (arith, h))
parts_given (part ∷ parts) metadata p h = refl

stored_same :
    (t : TaskRecord) (s v : Store)
    → find_task t.task_id s ≡ some t
    → SameTasks s v
    → find_task t.task_id v ≡ some t
unfolding find_task
stored_same t s v h same = ap (λ rows. lookup task_key t.task_id rows) same.tasks ∙ h

accept_input_of_accepted :
    (t x : TaskRecord) (r : PendingContinuationRecord) (request : MainAgentRequest) (p : Payload)
    (message : MessageRecord) (s v after : Store)
    → Waits t r "user_input_required" s
    → is_some request.context_id && not (opt_eq request.context_id (some t.context_id)) ≡ false
    → append_message (input_message t.task_id t request) s ≡ (ok message, v)
    → find_task t.task_id v ≡ some t
    → accept_pending_continuation t.task_id "user_input_required"
        (entry "input_message_id" (str message.message_id))
        "input"
        user_input
        p
        (submitted_store t message v)
      ≡ (ok x, after)
    → accept_input t.task_id request p s ≡ (ok x, after)
unfolding accept_input
accept_input_of_accepted t x r request p message s v after waits context appended stored accepted =
    ground (
      arith,
      validate_lem t r "user_input_required" "input" s waits,
      context,
      appended,
      append_task_event_lem t.task_id "task_input_submitted" none
          (some (entry "message_id" (str message.message_id))) v t stored,
      accepted,
    )

submit_of_accepted :
    (wake : Option WakeRun) (t x : TaskRecord) (request : MainAgentRequest) (p : Payload)
    (s after : Store)
    → find_task t.task_id s ≡ some t
    → is_some t.assigned_agent_id ≡ false
    → request.role ≡ user
    → input_from_values request.parts (metadata_or_none request.metadata) ≡ ok p
    → accept_input t.task_id request p s ≡ (ok x, after)
    → submit_task_input true wake t.task_id request s ≡ start_committed_local_task wake x after
unfolding submit_task_input get_task
submit_of_accepted wake t x request p s after h local asks made accepted = ground (
  arith,
  h,
  local,
  asks,
  made,
  parts_given request.parts (metadata_or_none request.metadata) p made,
  accepted,
)

-- When a local Task waits for input, no command is queued for it, the request is of the user with
-- parts that are objects, names no other context, and its message can be appended,
-- `submit_task_input` commits a store in which the Task is queued, its continuation is gone, and the
-- next claim sets the Task running and hands out the parts and the metadata of the request; then it
-- wakes the worker on that store, and answers with what `start_committed_local_task` makes of the
-- wake, whatever the wake does.
pub submit_task_input-claim :
    (wake : Option WakeRun) (t : TaskRecord) (r : PendingContinuationRecord)
    (request : MainAgentRequest) (p : Payload) (message : MessageRecord) (s v : Store)
    → Waits t r "user_input_required" s
    → request.role ≡ user
    → input_from_values request.parts (metadata_or_none request.metadata) ≡ ok p
    → is_some request.context_id && not (opt_eq request.context_id (some t.context_id)) ≡ false
    → append_message (input_message t.task_id t request) s ≡ (ok message, v)
    → (after later : Store) × (submit_task_input true wake t.task_id request s
        ≡ start_committed_local_task wake (changed queued no_failure t) after)
      × (find_task t.task_id after ≡ some (changed queued no_failure t))
      × (find_pending t.task_id after ≡ none)
      × (claim_queued_task_execution t.task_id after ≡ (
        ok (
            some (
              changed running no_failure (changed queued no_failure t),
              accepted_command t user_input p,
            )),
        later,
      ))
submit_task_input-claim wake t r request p message s v waits asks made context appended =
    let same = SameTasks-append_message (input_message t.task_id t request) s v message appended in
    let w = submitted_store t message v in
    let again : Waits t r "user_input_required" w =
      Waits-same t r "user_input_required" s v message waits same in
    let u = remove_pending t.task_id w in
    let resolved = SameTasks-Resolved t w u again.stored again.idle (SameTasks-refl u) in
    let (built, (written, wrote)) =
      input_built request.parts (metadata_or_none request.metadata) p made in
    let payload = entry "input_message_id" (str message.message_id) in
    (
      accepted_store t payload user_input written u,
      claimed_store (changed queued no_failure t) (accepted_store t payload user_input written u),
      submit_of_accepted wake t (changed queued no_failure t) request p s
          (accepted_store t payload user_input written u) waits.stored waits.local asks made
          (accept_input_of_accepted t (changed queued no_failure t) r request p message s v
            (accepted_store t payload user_input written u) waits context appended
            (stored_same t s v waits.stored same)
            (accept_lem t r "user_input_required" "input" payload user_input p written w u again
              (no_approval t.task_id r.input_request payload u) resolved built wrote)),
      find_task-accepted_store t payload user_input written u resolved.stored,
      find_pending-accepted_store t payload user_input written u resolved.taken,
      claimed_lem t payload user_input p written w u waits.local resolved built wrote,
    )
