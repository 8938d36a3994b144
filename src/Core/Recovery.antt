-- ===== src/Core/Recovery.antt =====
-- What one `record_runtime_recovery_failure` does to each Task of the store.
use mathlib.Core.Option
use mathlib.Core.Path.{subst}
use vermay_agent.Prelude.{
  String, ◌+◌, ◌==◌, eq_refl, ◌≡◌, ◌∙◌, refl, Bool, true, false, ◌||◌, Option, none, some, List, [],
  ◌∷◌, map, is_some, if◌then◌else◌, arith, Bool-cases, Option-cases, inl, inr,
}
use vermay_agent.Prelude.Table.{update}
use vermay_agent.Exec.{ok}
use vermay_agent.Lifecycle.{TaskStatus, failed, running, cancel_requested, is_terminal, status_eq}
use vermay_agent.Store.{Store, TaskRecord, task_key}
use vermay_agent.Store.Tasks.{find_task, get_task, update_task, insert_event}
use vermay_agent.Store.Tasks.Transition.{
  changed, recorded, event_name, task_id-find_task, find_task-update_task, find_task-insert_event,
}
use vermay_agent.Store.Queue.{remove_pending, remove_queued}
use vermay_agent.Store.Invocations.{cancel_all_prepared, all_running_uncertain}
use vermay_agent.Outcomes.{record_runtime_recovery_failure}
use vermay_agent.Outcomes.Steps.{failing, find_task-closed_store}
use vermay_agent.Outcomes.Settles.{failed_store, recovery_info, recovery_payload, recovery_of_live}
use vermay_agent.Core.{is_local}

-- A worker had the Task.
abbrev pub is_under_way : TaskStatus → Bool
is_under_way status = status_eq status running || status_eq status cancel_requested

abbrev pub holds : (TaskRecord → Bool) → Option TaskRecord → Bool
holds p none = false
holds p (some t) = p t

-- There is such a Task, and it is no remote proxy.
unfoldable pub local_at : String → Store → Bool
local_at j s = holds (is_local (λ _. true)) (find_task j s)

-- It is such a Task, and it runs or is being cancelled.
unfoldable pub interrupted : String → Store → Bool
interrupted j s = holds (is_local is_under_way) (find_task j s)

abbrev pub task_ids : Store → List String
task_ids s = map task_key s.tasks

pub record Recovered (k : String) (s after : Store) : Type 0 where
  pub same_local : (j : String) → local_at j after ≡ local_at j s
  pub ended : interrupted k after ≡ false
  pub others : (j : String) → interrupted j s ≡ false → interrupted j after ≡ false
  pub same_ids : task_ids after ≡ task_ids s

same_keys :
    (k : String) (f : TaskRecord → TaskRecord) (rows : List TaskRecord)
    → ((t : TaskRecord) → (f t).task_id ≡ t.task_id)
    → map task_key (update task_key k f rows) ≡ map task_key rows
unfolding update
same_keys k f [] same = refl
same_keys k f (r ∷ rows) same = ground (arith, same r, same_keys k f rows same)

module _ (t : TaskRecord) (code message : String) (s : Store) where
  abbrev after_failure : Store
  after_failure =
      failed_store t (recovery_payload code message) (recovery_info code message)
        "runtime recovery ended before prepared tool execution" s

  abbrev failure : TaskRecord → TaskRecord
  failure = changed failed (failing (recovery_info code message))

  find_after :
      (j : String)
      → find_task j after_failure
        ≡ (if t.task_id == j then Option.map failure (find_task j s) else find_task j s)
  find_after j =
      find_task-closed_store j t.task_id (recovery_info code message)
        "runtime recovery ended before prepared tool execution"
        (recorded failed (some (recovery_payload code message))
          (failing (recovery_info code message)) t s)
      ∙ find_task-insert_event j t.task_id (event_name failed) (some failed)
          (t.lifecycle_revision + 1) (recovery_payload code message)
          (update_task t.task_id failure s)
      ∙ find_task-update_task t.task_id j failure s (λ u. refl)

  ids_after : task_ids after_failure ≡ task_ids s
  unfolding remove_queued remove_pending cancel_all_prepared all_running_uncertain insert_event
      update_task
  ids_after = same_keys t.task_id failure s.tasks (λ u. refl)

  Recovered-after_failure : find_task t.task_id s ≡ some t → Recovered t.task_id s after_failure
  unfolding local_at interrupted
  Recovered-after_failure h = record {
    same_local = λ j. elim (Option-cases (find_task j s)) [
      | inl none_there ↦ ground (arith, none_there, find_after j)
      | inr (u, there) ↦ ground (arith, there, find_after j)
    ];
    ended = ground (arith, h, eq_refl t.task_id, find_after t.task_id);
    others = λ j quiet. elim (Option-cases (find_task j s)) [
      | inl none_there ↦ ground (arith, none_there, find_after j)
      | inr (u, there) ↦ ground (arith, there, quiet, find_after j)
    ];
    same_ids = ids_after;
  }

ended_interrupted : (t : TaskRecord) → is_terminal t.status ≡ true → is_local is_under_way t ≡ false
ended_interrupted t done = ground (arith, done)

Recovered-same : (k : String) (s : Store) → interrupted k s ≡ false → Recovered k s s
Recovered-same k s quiet = record {
  same_local = λ j. refl;
  ended = quiet;
  others = λ j h. h;
  same_ids = refl;
}

recovery_of_ended :
    (k code message : String) (s : Store) (t : TaskRecord)
    → find_task k s ≡ some t
    → is_terminal t.status ≡ true
    → record_runtime_recovery_failure k code message s ≡ (ok t, s)
unfolding record_runtime_recovery_failure get_task
recovery_of_ended k code message s t h done = ground (arith, h, done)

recover_found :
    (code message : String) (s : Store) (t : TaskRecord)
    → find_task t.task_id s ≡ some t
    → is_some t.assigned_agent_id ≡ false
    → (u : TaskRecord) × (after : Store) × (record_runtime_recovery_failure t.task_id code message s
        ≡ (ok u, after))
      × Recovered t.task_id s after
unfolding interrupted
recover_found code message s t h local = elim (Bool-cases (is_terminal t.status)) [
  | inl done ↦ (
    t,
    s,
    recovery_of_ended t.task_id code message s t h done,
    Recovered-same t.task_id s (ground (arith, h, ended_interrupted t done)),
  )
  | inr live ↦ (
    failure t code message s t,
    after_failure t code message s,
    recovery_of_live t code message s h local live,
    Recovered-after_failure t code message s h,
  )
]

local_found :
    (k : String) (s : Store)
    → local_at k s ≡ true
    → (t : TaskRecord) × (find_task k s ≡ some t)
      × (t.task_id ≡ k)
      × (is_some t.assigned_agent_id ≡ false)
unfolding local_at
local_found k s h = elim (Option-cases (find_task k s)) [
  | inl missing ↦ ground (arith, h, missing)
  | inr (t, found) ↦ (t, found, task_id-find_task k s t found, ground (arith, h, found))
]

-- On a local Task the call always returns, ends it if it ran, and leaves each other Task as it was.
pub recover_step :
    (k code message : String) (s : Store)
    → local_at k s ≡ true
    → (u : TaskRecord) × (after : Store) × (record_runtime_recovery_failure k code message s
        ≡ (ok u, after))
      × Recovered k s after
recover_step k code message s h =
    let (t, found, same, local) = local_found k s h in
    let there : find_task t.task_id s ≡ some t = ground (arith, found, same) in
    subst
      (λ id.
        (u : TaskRecord) × (after : Store) × (record_runtime_recovery_failure id code message s
          ≡ (ok u, after))
        × Recovered id s after)
      same (recover_found code message s t there local)
