-- ===== src/Store/Queue/Claim.antt =====
-- `claim_queued_task_execution`: who takes a queued command.
use vermay_agent.Prelude.{
  String, ◌+◌, ◌==◌, eq_refl, ◌≡◌, refl, ap, true, false, ◌||◌, Option, none, some, is_some, not,
  if◌then◌else◌, arith, Option-cases, inl, inr,
}
use vermay_agent.Prelude.Table.{lookup-remove}
use vermay_agent.Exec.{Result, ok, err, unknown_task, queued_thread_mismatch}
use vermay_agent.Json.{end}
use vermay_agent.Lifecycle.{queued, running, status_eq, validate_local_task_transition}
use vermay_agent.Store.{Store, TaskRecord, queued_key}
use vermay_agent.Store.Tasks.{
  find_task, get_task, update_task, insert_event, no_failure, transition_local_task,
}
use vermay_agent.Store.Tasks.Transition.{
  changed, recorded, transition_local_task_lem, task_id-find_task, find_task-update_task,
  find_task-insert_event,
}
use vermay_agent.Store.Queue.{
  find_queued, decode_queued, get_queued_task_execution, remove_queued, claim_found,
  claim_queued_task_execution, QueuedTaskExecutionRecord,
}

find_task-remove_queued :
    (j k : String) (s : Store) → find_task j (remove_queued k s) ≡ find_task j s
unfolding find_task remove_queued
find_task-remove_queued j k s = refl

-- The store after a claim: the row gone, and the Task running, in one step.
abbrev pub claimed_store : TaskRecord → Store → Store
claimed_store t s = recorded running none no_failure t (remove_queued t.task_id s)

-- The branches of a claim.
abbrev pub claim_outcome :
    String
    → Store
    → Option TaskRecord
    → Result (Option QueuedTaskExecutionRecord)
    → Result (Option (TaskRecord × QueuedTaskExecutionRecord)) × Store
claim_outcome task_id s none command = (err (unknown_task task_id), s)
claim_outcome task_id s (some t) command =
    if is_some t.assigned_agent_id || not (status_eq t.status queued)
    then (ok none, s)
    else elim command [
      | err e ↦ (err e, s)
      | ok none ↦ (ok none, s)
      | ok (some c) ↦
          if not (c.runtime_thread_id == t.runtime_thread_id)
          then (err (queued_thread_mismatch task_id), s)
          else (ok (some (changed running no_failure t, c)), claimed_store t s)
    ]

start_of_queued :
    (t : TaskRecord) (s : Store)
    → find_task t.task_id s ≡ some t
    → is_some t.assigned_agent_id ≡ false
    → status_eq t.status queued ≡ true
    → transition_local_task t.task_id running none no_failure s
      ≡ (ok (changed running no_failure t), recorded running none no_failure t s)
unfolding validate_local_task_transition
start_of_queued t s h local waits =
    ground (arith, h, transition_local_task_lem t.task_id running none no_failure s)

claim_of_found :
    (task_id : String) (t : TaskRecord) (s : Store)
    → find_task task_id s ≡ some t
    → claim_queued_task_execution task_id s
      ≡ claim_outcome task_id s (some t) (decode_queued (find_queued task_id s))
unfolding claim_queued_task_execution get_task get_queued_task_execution claim_found
claim_of_found task_id t s h = ground (
  arith,
  h,
  task_id-find_task task_id s t h,
  find_task-remove_queued t.task_id t.task_id s,
  start_of_queued t (remove_queued t.task_id s),
)

claim_of_missing :
    (task_id : String) (s : Store)
    → find_task task_id s ≡ none
    → claim_queued_task_execution task_id s ≡ (err (unknown_task task_id), s)
unfolding claim_queued_task_execution get_task
claim_of_missing task_id s h = ground (arith, h)

-- `claim_queued_task_execution` raises and leaves the store as it was for an unknown Task, a command
-- that cannot be read or one of another thread; it returns `None` and changes nothing for a remote
-- proxy, a Task that is not queued or a Task without a command; and otherwise it returns the
-- command, deletes its row, sets the Task running with one more revision and appends one event.
pub claim_queued_task_execution_lem :
    (task_id : String) (s : Store)
    → claim_queued_task_execution task_id s
      ≡ claim_outcome task_id s (find_task task_id s) (decode_queued (find_queued task_id s))
claim_queued_task_execution_lem task_id s = elim (Option-cases (find_task task_id s)) [
  | inl missing ↦ rw missing (claim_of_missing task_id s missing)
  | inr (t, found) ↦ rw found (claim_of_found task_id t s found)
]

-- What a claim that returns a command has done.
claim_taken :
    (task_id : String) (s after : Store) (claimed : TaskRecord) (c : QueuedTaskExecutionRecord)
    → claim_queued_task_execution task_id s ≡ (ok (some (claimed, c)), after)
    → (t : TaskRecord) × (find_task task_id s ≡ some t)
      × (claimed ≡ changed running no_failure t)
      × (after ≡ claimed_store t s)
claim_taken task_id s after claimed c h = elim (Option-cases (find_task task_id s)) [
  | inl missing ↦ ground (arith, missing, claim_queued_task_execution_lem task_id s)
  | inr (t, found) ↦ (
    t,
    found,
    ground (arith, found, claim_queued_task_execution_lem task_id s),
    ground (arith, found, claim_queued_task_execution_lem task_id s),
  )
]

find_after_claim :
    (t : TaskRecord) (s : Store)
    → find_task t.task_id s ≡ some t
    → find_task t.task_id (claimed_store t s) ≡ some (changed running no_failure t)
find_after_claim t s h =
    let gone = remove_queued t.task_id s in
    let written = update_task t.task_id (changed running no_failure) gone in
    rw (
      find_task-insert_event t.task_id t.task_id "task_started" (some running)
          (t.lifecycle_revision + 1) end written,
      find_task-update_task t.task_id t.task_id (changed running no_failure) gone (λ u. refl),
      eq_refl,
      find_task-remove_queued t.task_id t.task_id s,
      h,
    )

no_row_after_claim : (t : TaskRecord) (s : Store) → find_queued t.task_id (claimed_store t s) ≡ none
unfolding find_queued remove_queued update_task insert_event
no_row_after_claim t s =
    ground (arith, lookup-remove queued_key t.task_id t.task_id s.queued, eq_refl t.task_id)

-- A command is claimed at most once: after a claim that returned one, the Task that the claim
-- returned is the stored one and runs, no row is left for it, and the next claim returns `None` and
-- changes nothing.
pub claim_once :
    (task_id : String) (s after : Store) (claimed : TaskRecord) (c : QueuedTaskExecutionRecord)
    → claim_queued_task_execution task_id s ≡ (ok (some (claimed, c)), after)
    → (find_task task_id after ≡ some claimed)
      × (claimed.status ≡ running)
      × (find_queued task_id after ≡ none)
      × (claim_queued_task_execution task_id after ≡ (ok none, after))
claim_once task_id s after claimed c h =
    let (t, found, is_claimed, is_after) = claim_taken task_id s after claimed c h in
    let same : t.task_id ≡ task_id = task_id-find_task task_id s t found in
    let stored : find_task task_id after ≡ some claimed =
      ground (arith, same, is_claimed, is_after, found, find_after_claim t s) in
    (
      stored,
      ap (λ u. u.status) is_claimed,
      ground (arith, same, is_after, no_row_after_claim t s),
      ground (arith, stored, is_claimed, claim_queued_task_execution_lem task_id after),
    )
