-- ===== src/Core/Resumes.antt =====
-- vermay/main_agent/core.py: an accepted continuation and the claim of the worker after it.
use mathlib.Core.Path.{subst}
use vermay_agent.Prelude.Table.{lookup, insert}
use vermay_agent.Prelude.{
  String, eq_iff, ◌≡◌, ◌∙◌, ap, refl, Bool, true, false, Option, none, some, is_some, truthy,
  if◌then◌else◌, arith, Bool-cases, inl, inr,
}
use vermay_agent.Exec.{ok}
use vermay_agent.Json.{Fields, get, json_truthy}
use vermay_agent.Lifecycle.{TaskStatus, queued, running, validate_local_task_transition}
use vermay_agent.Command.{
  CommandKind, approval, Payload, decide, payload_to_dict, local_execution_command_version,
}
use vermay_agent.Command.Roundtrip.{is_built}
use vermay_agent.Store.{
  Store, TaskRecord, task_key, queued_key, pending_key, ToolInvocationRecord,
  PendingContinuationRecord,
}
use vermay_agent.Store.Tasks.{find_task, get_task, insert_event, no_failure, update_task}
use vermay_agent.Store.Tasks.Transition.{
  changed, recorded, find_task-insert_event, append_task_event_lem,
}
use vermay_agent.Store.Queue.{
  QueuedTaskExecutionRecord, find_pending, find_queued, remove_pending, insert_queued,
  claim_queued_task_execution, enqueue_task_execution,
}
use vermay_agent.Store.Queue.Claim.{claimed_store}
use vermay_agent.Store.Queue.Enqueue.{command_record, command_row, enqueue_fresh, enqueue-claim}
use vermay_agent.Store.Queue.Pending.{consume_found, find_removed}
use vermay_agent.Store.Invocations.{resolve_pending_tool_invocation_approval}
use vermay_agent.Store.Invocations.Approvals.{SameTasks, SameTasks-resolve_pending}
use vermay_agent.Outcomes.Steps.{transition_accepted, find_recorded}
use vermay_agent.Core.Continuations.{
  is_waiting, validate_pending_continuation, approved_in, text_in, resolve_if_approval,
  accept_pending_continuation, decision_payload, WakeRun, start_committed_local_task,
  resolve_approval,
}

-- A local Task that waits for an answer of a kind, with no command queued.
pub record Waits (t : TaskRecord) (r : PendingContinuationRecord) (kind : String) (s : Store)
    : Type 0 where
  pub stored : find_task t.task_id s ≡ some t
  pub local : is_some t.assigned_agent_id ≡ false
  pub waiting : is_waiting t.status ≡ true
  pub pending : find_pending t.task_id s ≡ some r
  pub asked : r.kind ≡ kind
  pub idle : find_queued t.task_id s ≡ none

pub validate_lem :
    (t : TaskRecord) (r : PendingContinuationRecord) (kind operation : String) (s : Store)
    → Waits t r kind s
    → validate_pending_continuation t.task_id kind operation s ≡ (ok t, s)
unfolding validate_pending_continuation get_task
validate_lem t r kind operation s waits =
    ground (arith, waits.stored, waits.waiting, waits.pending, waits.asked, eq_iff r.kind kind)

can_queue :
    (a : TaskStatus) → is_waiting a ≡ true → validate_local_task_transition a queued ≡ ok true
unfolding validate_local_task_transition
can_queue a h = ground arith

abbrev resumed_store : TaskRecord → Fields → Store → Store
resumed_store t payload u =
    insert_event t.task_id "task_resumed" none t.lifecycle_revision payload u

-- The store with the Task queued, before its command is.
abbrev queued_store : TaskRecord → Fields → Store → Store
queued_store t payload u = recorded queued none no_failure t (resumed_store t payload u)

find_queued-queued_store :
    (j : String) (t : TaskRecord) (payload : Fields) (u : Store)
    → find_queued j (queued_store t payload u) ≡ find_queued j u
unfolding find_queued insert_event update_task
find_queued-queued_store j t payload u = refl

find_pending-queued_store :
    (j : String) (t : TaskRecord) (payload : Fields) (u : Store)
    → find_pending j (queued_store t payload u) ≡ find_pending j u
unfolding find_pending insert_event update_task
find_pending-queued_store j t payload u = refl

abbrev pub accepted_store : TaskRecord → Fields → CommandKind → Fields → Store → Store
accepted_store t payload kind written u =
    insert_queued (command_row t.task_id kind t.runtime_thread_id written)
      (queued_store t payload u)

abbrev pub accepted_command : TaskRecord → CommandKind → Payload → QueuedTaskExecutionRecord
accepted_command t kind p =
    command_record t.task_id kind t.runtime_thread_id local_execution_command_version p

-- What the queue table and the Task keep while the bound invocation is resolved.
pub record Resolved (t : TaskRecord) (s u : Store) : Type 0 where
  pub stored : find_task t.task_id u ≡ some t
  pub idle : find_queued t.task_id u ≡ none
  pub taken : find_pending t.task_id u ≡ none

enqueued_lem :
    (t : TaskRecord) (payload : Fields) (kind : CommandKind) (p : Payload) (written : Fields)
    (s u : Store)
    → is_some t.assigned_agent_id ≡ false
    → Resolved t s u
    → is_built p ≡ true
    → payload_to_dict kind p ≡ ok written
    → enqueue_task_execution t.task_id kind t.runtime_thread_id
        (some p)
        local_execution_command_version
        (queued_store t payload u)
      ≡ (ok (accepted_command t kind p), accepted_store t payload kind written u)
enqueued_lem t payload kind p written s u local resolved built wrote =
    enqueue_fresh (changed queued no_failure t) kind p written (queued_store t payload u)
      (find_recorded t queued none no_failure (resumed_store t payload u) (
        find_task-insert_event t.task_id t.task_id "task_resumed" none t.lifecycle_revision payload
          u
        ∙ resolved.stored))
      local refl (find_queued-queued_store t.task_id t payload u ∙ resolved.idle) built wrote

pub accept_lem :
    (t : TaskRecord) (r : PendingContinuationRecord) (expected operation : String)
    (payload : Fields) (kind : CommandKind) (p : Payload) (written : Fields) (s u : Store)
    → Waits t r expected s
    → resolve_if_approval t.task_id expected r.input_request payload (remove_pending t.task_id s)
      ≡ (ok tt, u)
    → Resolved t s u
    → is_built p ≡ true
    → payload_to_dict kind p ≡ ok written
    → accept_pending_continuation t.task_id expected payload operation kind p s
      ≡ (ok (changed queued no_failure t), accepted_store t payload kind written u)
unfolding accept_pending_continuation
accept_lem t r expected operation payload kind p written s u waits resolves resolved built wrote =
    ground (
      arith,
      validate_lem t r expected operation s waits,
      consume_found t.task_id expected s r waits.pending waits.asked,
      resolves,
      append_task_event_lem t.task_id "task_resumed" none (some payload) u t resolved.stored,
      transition_accepted t.task_id queued none no_failure (resumed_store t payload u) t
          (find_task-insert_event t.task_id t.task_id "task_resumed" none t.lifecycle_revision
              payload u
            ∙ resolved.stored)
          waits.local (can_queue t.status waits.waiting),
      enqueued_lem t payload kind p written s u waits.local resolved built wrote,
    )

-- The command that is queued is the one that the next claim returns.
pub claimed_lem :
    (t : TaskRecord) (payload : Fields) (kind : CommandKind) (p : Payload) (written : Fields)
    (s u : Store)
    → is_some t.assigned_agent_id ≡ false
    → Resolved t s u
    → is_built p ≡ true
    → payload_to_dict kind p ≡ ok written
    → claim_queued_task_execution t.task_id (accepted_store t payload kind written u) ≡ (
      ok (
          some
            (changed running no_failure (changed queued no_failure t), accepted_command t kind p)),
      claimed_store (changed queued no_failure t) (accepted_store t payload kind written u),
    )
claimed_lem t payload kind p written s u local resolved built wrote =
    let (v, found, claims) =
      enqueue-claim t.task_id kind t.runtime_thread_id (some p) local_execution_command_version
        (accepted_command t kind p) (queued_store t payload u)
        (accepted_store t payload kind written u)
        (enqueued_lem t payload kind p written s u local resolved built wrote) in
    let stored : find_task t.task_id (queued_store t payload u)
        ≡ some (changed queued no_failure t) =
      find_recorded t queued none no_failure (resumed_store t payload u) (
        find_task-insert_event t.task_id t.task_id "task_resumed" none t.lifecycle_revision payload
          u
        ∙ resolved.stored) in
    let same : v ≡ changed queued no_failure t = ground (arith, found, stored) in
    subst
      (λ w. claim_queued_task_execution t.task_id (accepted_store t payload kind written u) ≡ (
        ok (some (changed running no_failure w, accepted_command t kind p)),
        claimed_store w (accepted_store t payload kind written u),
      ))
      same claims

pub find_pending-accepted_store :
    (t : TaskRecord) (payload : Fields) (kind : CommandKind) (written : Fields) (u : Store)
    → find_pending t.task_id u ≡ none
    → find_pending t.task_id (accepted_store t payload kind written u) ≡ none
unfolding find_pending insert_event update_task insert_queued
find_pending-accepted_store t payload kind written u h = h

-- The reason of a decision, unless it is empty.
abbrev pub given : Option String → Option String
given none = none
given (some reason) = if truthy reason then some reason else none

approved_in_decision :
    (approved : Bool) (reason : Option String)
    → approved_in (decision_payload approved reason) ≡ approved
unfolding get json_truthy
approved_in_decision approved none = refl
approved_in_decision approved (some reason) = elim (Bool-cases (truthy reason)) [
  | inl h ↦ rw h refl
  | inr h ↦ rw h refl
]

reason_in_decision :
    (approved : Bool) (reason : Option String)
    → text_in (get "reason" (decision_payload approved reason)) ≡ given reason
unfolding get
reason_in_decision approved none = refl
reason_in_decision approved (some reason) = elim (Bool-cases (truthy reason)) [
  | inl h ↦ rw h (rw h refl)
  | inr h ↦ rw h refl
]

pub SameTasks-Resolved :
    (t : TaskRecord) (s u : Store)
    → find_task t.task_id s ≡ some t
    → find_queued t.task_id s ≡ none
    → SameTasks (remove_pending t.task_id s) u
    → Resolved t s u
unfolding find_task find_queued find_pending remove_pending
SameTasks-Resolved t s u h idle same = record {
  stored = ap (λ rows. lookup task_key t.task_id rows) same.tasks ∙ h;
  idle = ap (λ rows. lookup queued_key t.task_id rows) same.queued ∙ idle;
  taken = ap (λ rows. lookup pending_key t.task_id rows) same.pending ∙ find_removed t.task_id s;
}

approval_Resolved :
    (t : TaskRecord) (r : PendingContinuationRecord) (approved : Bool) (reason : Option String)
    (bound : Option ToolInvocationRecord) (s u : Store)
    → Waits t r "approval_required" s
    → resolve_pending_tool_invocation_approval t.task_id r.input_request approved
        (given reason)
        (remove_pending t.task_id s)
      ≡ (ok bound, u)
    → Resolved t s u
approval_Resolved t r approved reason bound s u waits resolves =
    SameTasks-Resolved t s u waits.stored waits.idle (
      subst (SameTasks (remove_pending t.task_id s)) (ap (λ p. p.1) resolves) (
        SameTasks-resolve_pending t.task_id r.input_request approved (given reason)
          (remove_pending t.task_id s)))

decision_written :
    (approved : Bool) (reason : Option String)
    → (written : Fields) × (payload_to_dict approval (decide approved reason) ≡ ok written)
unfolding payload_to_dict
decision_written approved none = (_, refl)
decision_written approved (some reason) = (_, refl)

resolve_if_approval_lem :
    (t : TaskRecord) (request : Fields) (approved : Bool) (reason : Option String)
    (bound : Option ToolInvocationRecord) (s u : Store)
    → resolve_pending_tool_invocation_approval t.task_id request approved (given reason) s
      ≡ (ok bound, u)
    → resolve_if_approval t.task_id "approval_required" request (decision_payload approved reason) s
      ≡ (ok tt, u)
unfolding resolve_if_approval
resolve_if_approval_lem t request approved reason bound s u resolves =
    rw (approved_in_decision approved reason, reason_in_decision approved reason)
      (ground (arith, resolves))

resolve_approval_of_accepted :
    (wake : Option WakeRun) (t : TaskRecord) (approved : Bool) (reason : Option String)
    (x : TaskRecord) (s after : Store)
    → find_task t.task_id s ≡ some t
    → is_some t.assigned_agent_id ≡ false
    → accept_pending_continuation t.task_id "approval_required"
        (decision_payload approved reason)
        "approval"
        approval
        (decide approved reason)
        s
      ≡ (ok x, after)
    → resolve_approval true wake t.task_id approved reason s
      ≡ start_committed_local_task wake x after
unfolding resolve_approval get_task
resolve_approval_of_accepted wake t approved reason x s after h local accepted =
    ground (arith, h, local, accepted)

pub find_task-accepted_store :
    (t : TaskRecord) (payload : Fields) (kind : CommandKind) (written : Fields) (u : Store)
    → find_task t.task_id u ≡ some t
    → find_task t.task_id (accepted_store t payload kind written u)
      ≡ some (changed queued no_failure t)
unfolding insert_queued insert_event insert update_task find_task
find_task-accepted_store t payload kind written u h =
    find_recorded t queued none no_failure (resumed_store t payload u) (
      find_task-insert_event t.task_id t.task_id "task_resumed" none t.lifecycle_revision payload u
      ∙ h)

-- When a local Task waits for an approval, no command is queued for it, and the invocation that its
-- request names, if any, can take the decision, `resolve_approval` commits a store in which the Task
-- is queued, its continuation is gone, and the next claim sets the Task running and hands out that
-- decision; then it wakes the worker on that store, and answers with what
-- `start_committed_local_task` makes of the wake, whatever the wake does.
pub resolve_approval-claim :
    (wake : Option WakeRun) (t : TaskRecord) (r : PendingContinuationRecord) (approved : Bool)
    (reason : Option String) (bound : Option ToolInvocationRecord) (s u : Store)
    → Waits t r "approval_required" s
    → resolve_pending_tool_invocation_approval t.task_id r.input_request approved
        (given reason)
        (remove_pending t.task_id s)
      ≡ (ok bound, u)
    → (after later : Store) × (resolve_approval true wake t.task_id approved reason s
        ≡ start_committed_local_task wake (changed queued no_failure t) after)
      × (find_task t.task_id after ≡ some (changed queued no_failure t))
      × (find_pending t.task_id after ≡ none)
      × (claim_queued_task_execution t.task_id after ≡ (
        ok (
            some (
              changed running no_failure (changed queued no_failure t),
              accepted_command t approval (decide approved reason),
            )),
        later,
      ))
unfolding is_built
resolve_approval-claim wake t r approved reason bound s u waits resolves =
    let payload = decision_payload approved reason in
    let resolved = approval_Resolved t r approved reason bound s u waits resolves in
    let (written, wrote) = decision_written approved reason in
    (
      accepted_store t payload approval written u,
      claimed_store (changed queued no_failure t) (accepted_store t payload approval written u),
      resolve_approval_of_accepted wake t approved reason (changed queued no_failure t) s
          (accepted_store t payload approval written u) waits.stored waits.local
          (accept_lem t r "approval_required" "approval" payload approval (decide approved reason)
            written s u waits
            (resolve_if_approval_lem t r.input_request approved reason bound
              (remove_pending t.task_id s) u resolves)
            resolved refl wrote),
      find_task-accepted_store t payload approval written u resolved.stored,
      find_pending-accepted_store t payload approval written u resolved.taken,
      claimed_lem t payload approval (decide approved reason) written s u waits.local resolved refl
          wrote,
    )
