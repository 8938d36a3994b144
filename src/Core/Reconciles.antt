-- ===== src/Core/Reconciles.antt =====
-- `_reconcile_startup`: what no Task is after a restart.
use vermay_agent.Prelude.{
  String, ◌==◌, eq_iff, eq_refl, ◌≡◌, ◌∙◌, refl, sym, ap, Bool, true, false, not, ◌&&◌, ◌||◌, some,
  List, [], ◌∷◌, ◌++◌, map, select, All, arith, Bool-cases, Option-cases, inl, inr,
}
use vermay_agent.Prelude.Table.{lookup}
use vermay_agent.Exec.{ok}
use vermay_agent.Lifecycle.{TaskStatus}
use vermay_agent.Store.{Store, TaskRecord, task_key}
use vermay_agent.Store.Tasks.{find_task}
use vermay_agent.Store.Queue.{decode_queued, find_queued}
use vermay_agent.Core.{
  Adapter, Verdict, schedule, retain, fail, StartupReconciliationOutcome, is_local, is_interrupted,
  is_queued, list_local_tasks_by_statuses, fail_interrupted, queued_verdict, apply_verdict,
  recover_queued, reconcile_startup, nothing_reconciled,
}
use vermay_agent.Core.Recovery.{
  is_under_way, local_at, interrupted, task_ids, Recovered, recover_step,
}

-- No id stands twice: PRIMARY KEY of `main_agent_tasks`.
abbrev pub absent : String → List String → Bool
absent k [] = true
absent k (x ∷ xs) = not (x == k) && absent k xs

unfoldable pub distinct : List String → Bool
distinct [] = true
distinct (x ∷ xs) = absent x xs && distinct xs

-- One of the rows has the id.
abbrev pub named : String → List TaskRecord → Bool
named j [] = false
named j (t ∷ tasks) = t.task_id == j || named j tasks

-- The rows are local Tasks of the store.
abbrev AllLocal : Store → List TaskRecord → Type 0
AllLocal s tasks = All (λ t. local_at t.task_id s ≡ true) tasks

All-select :
    {P Q : TaskRecord → Type 0} (p : TaskRecord → Bool) (xs : List TaskRecord)
    → ((x : TaskRecord) → P x → p x ≡ true → Q x)
    → All P xs
    → All Q (select p xs)
All-select p [] f all = tt
All-select p (x ∷ xs) f (px, all) = elim (Bool-cases (p x)) [
  | inl kept ↦ rw kept (f x px kept, All-select p xs f all)
  | inr dropped ↦ rw dropped (All-select p xs f all)
]

found_behind :
    (x : TaskRecord) (rows rest : List TaskRecord)
    → absent x.task_id (map task_key rest) ≡ true
    → All (λ t. lookup task_key t.task_id rows ≡ some t) rest
    → All (λ t. lookup task_key t.task_id (x ∷ rows) ≡ some t) rest
unfolding lookup
found_behind x rows [] new all = tt
found_behind x rows (t ∷ rest) new (found, all) = (
  ground (arith, new, found, eq_iff t.task_id x.task_id, eq_iff x.task_id t.task_id),
  found_behind x rows rest (ground (arith, new)) all,
)

-- With distinct ids each row is the one that its id finds.
every_row_found :
    (rows : List TaskRecord)
    → distinct (map task_key rows) ≡ true
    → All (λ t. lookup task_key t.task_id rows ≡ some t) rows
unfolding distinct lookup
every_row_found [] d = tt
every_row_found (x ∷ rows) d = (
  rw (eq_refl x.task_id) refl,
  found_behind x rows rows (ground (arith, d)) (every_row_found rows (ground (arith, d))),
)

selected_local :
    (wanted : TaskStatus → Bool) (t : TaskRecord)
    → is_local wanted t ≡ true
    → is_local (λ _. true) t ≡ true
selected_local wanted t h = ground (arith, h)

-- The listed Tasks are local ones of the store.
list-AllLocal :
    (wanted : TaskStatus → Bool) (s : Store)
    → distinct (task_ids s) ≡ true
    → AllLocal s (list_local_tasks_by_statuses wanted s)
unfolding list_local_tasks_by_statuses local_at find_task
list-AllLocal wanted s d =
    All-select (is_local wanted) s.tasks
      (λ t found chosen. ground (arith, found, selected_local wanted t chosen))
      (every_row_found s.tasks d)

named-select :
    (p : TaskRecord → Bool) (j : String) (rows : List TaskRecord) (u : TaskRecord)
    → lookup task_key j rows ≡ some u
    → p u ≡ true
    → named j (select p rows) ≡ true
unfolding lookup
named-select p j [] u found h = cc
named-select p j (x ∷ rows) u found h =
    ground (arith, found, h, named-select p j rows u, eq_iff x.task_id j)

under_way_listed :
    (u : TaskRecord) → is_local is_under_way u ≡ true → is_local is_interrupted u ≡ true
under_way_listed u h = ground (arith, h)

-- An interrupted Task is among the listed ones.
named-list :
    (j : String) (s : Store)
    → interrupted j s ≡ true
    → named j (list_local_tasks_by_statuses is_interrupted s) ≡ true
unfolding list_local_tasks_by_statuses interrupted find_task
named-list j s h = elim (Option-cases (lookup task_key j s.tasks)) [
  | inl missing ↦ ground (arith, h, missing)
  | inr (u, found) ↦
      named-select (is_local is_interrupted) j s.tasks u found
        (under_way_listed u (ground (arith, h, found)))
]

-- What a loop keeps.
record Kept (s after : Store) : Type 0 where
  same_local : (j : String) → local_at j after ≡ local_at j s
  others : (j : String) → interrupted j s ≡ false → interrupted j after ≡ false
  same_ids : task_ids after ≡ task_ids s

Kept-refl : (s : Store) → Kept s s
Kept-refl s = record { same_local = λ j. refl; others = λ j h. h; same_ids = refl }

Kept-trans : {s t u : Store} → Kept s t → Kept t u → Kept s u
Kept-trans p q = record {
  same_local = λ j. q.same_local j ∙ p.same_local j;
  others = λ j h. q.others j (p.others j h);
  same_ids = q.same_ids ∙ p.same_ids;
}

Kept-of_Recovered : (k : String) (s after : Store) → Recovered k s after → Kept s after
Kept-of_Recovered k s after r = record {
  same_local = r.same_local;
  others = r.others;
  same_ids = r.same_ids;
}

AllLocal-Kept :
    (s after : Store) (tasks : List TaskRecord)
    → Kept s after
    → AllLocal s tasks
    → AllLocal after tasks
AllLocal-Kept s after [] kept all = tt
AllLocal-Kept s after (t ∷ tasks) kept (h, all) =
    (kept.same_local t.task_id ∙ h, AllLocal-Kept s after tasks kept all)

interrupted_loop :
    (tasks : List TaskRecord) (out : StartupReconciliationOutcome) (s : Store)
    → AllLocal s tasks
    → (done : StartupReconciliationOutcome) × (after : Store) × (fail_interrupted tasks out s
        ≡ (ok done, after))
      × Kept s after
      × ((j : String) → named j tasks ≡ true → interrupted j after ≡ false)
unfolding fail_interrupted
interrupted_loop [] out s all = (out, s, refl, Kept-refl s, λ j h. cc)
interrupted_loop (t ∷ tasks) out s (here, all) =
    let next = record out { failed_task_ids = out.failed_task_ids ++ t.task_id ∷ [] } in
    let (u, mid, stepped, recovered) =
      recover_step t.task_id "runtime_restart_interrupted"
        "Local task execution was interrupted by a runtime restart." s here in
    let kept = Kept-of_Recovered t.task_id s mid recovered in
    let (done, after, looped, later, quiet) =
      interrupted_loop tasks next mid (AllLocal-Kept s mid tasks kept all) in
    (
      done,
      after,
      ground (arith, stepped, looped),
      Kept-trans kept later,
      λ j h. elim (Bool-cases (t.task_id == j)) [
        | inl same ↦
            later.others j
              (ap (λ k. interrupted k mid) (sym ((eq_iff t.task_id j).0 same)) ∙ recovered.ended)
        | inr other ↦ quiet j (ground (arith, h, other))
      ],
    )

apply_step :
    (t : TaskRecord) (out : StartupReconciliationOutcome) (verdict : Verdict) (s : Store)
    → local_at t.task_id s ≡ true
    → (next : StartupReconciliationOutcome) × (after : Store) × (apply_verdict t out verdict s
        ≡ (ok next, after))
      × Kept s after
unfolding apply_verdict
apply_step t out schedule s h = (_, s, refl, Kept-refl s)
apply_step t out retain s h = (_, s, refl, Kept-refl s)
apply_step t out (fail code message) s h =
    let (u, after, stepped, recovered) = recover_step t.task_id code message s h in
    (
      record out { failed_task_ids = out.failed_task_ids ++ t.task_id ∷ [] },
      after,
      ground (arith, stepped),
      Kept-of_Recovered t.task_id s after recovered,
    )

queued_loop :
    (adapter : Adapter) (tasks : List TaskRecord) (out : StartupReconciliationOutcome) (s : Store)
    → AllLocal s tasks
    → (done : StartupReconciliationOutcome) × (after : Store) × (recover_queued adapter tasks out s
        ≡ (ok done, after))
      × Kept s after
unfolding recover_queued
queued_loop adapter [] out s all = (out, s, refl, Kept-refl s)
queued_loop adapter (t ∷ tasks) out s (here, all) =
    let verdict = queued_verdict adapter t (decode_queued (find_queued t.task_id s)) in
    let (next, mid, stepped, kept) = apply_step t out verdict s here in
    let (done, after, looped, later) =
      queued_loop adapter tasks next mid (AllLocal-Kept s mid tasks kept all) in
    (done, after, ground (arith, stepped, looped), Kept-trans kept later)

-- Reconciling a store in which no Task id stands twice always returns, whatever the adapter answers,
-- and then no local Task runs or waits for its cancellation.
pub reconcile_startup_settles :
    (adapter : Adapter) (s : Store) (j : String)
    → distinct (task_ids s) ≡ true
    → (out : StartupReconciliationOutcome) × (after : Store) × (reconcile_startup adapter s
        ≡ (ok out, after))
      × (interrupted j after ≡ false)
unfolding reconcile_startup
reconcile_startup_settles adapter s j d =
    let listed = list_local_tasks_by_statuses is_interrupted s in
    let (failed, mid, first, kept, quiet) =
      interrupted_loop listed nothing_reconciled s (list-AllLocal is_interrupted s d) in
    let waiting = list_local_tasks_by_statuses is_queued mid in
    let (out, after, second, later) =
      queued_loop adapter waiting failed mid
        (list-AllLocal is_queued mid (ap distinct kept.same_ids ∙ d)) in
    (
      out,
      after,
      ground (arith, first, second),
      elim (Bool-cases (interrupted j s)) [
        | inl was ↦ later.others j (quiet j (named-list j s was))
        | inr was_not ↦ later.others j (kept.others j was_not)
      ],
    )
