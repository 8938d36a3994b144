-- ===== src/Store/Queue/Pending.antt =====
-- A pending continuation, from the interrupt that sets it to the decision that takes it.
use vermay_agent.Prelude.{
  String, eq_iff, eq_refl, ◌≡◌, refl, none, some, arith, Option-cases, inl, inr,
}
use vermay_agent.Prelude.Table.{lookup-insert, lookup-update, lookup-remove, key-lookup}
use vermay_agent.Exec.{ok, err, no_pending, wrong_pending}
use vermay_agent.Store.{Store, PendingContinuationRecord, pending_key}
use vermay_agent.Store.Tasks.{get_task}
use vermay_agent.Store.Queue.{
  find_pending, write_pending, remove_pending, set_pending_continuation,
  consume_pending_continuation,
}

abbrev with_request :
    PendingContinuationRecord → PendingContinuationRecord → PendingContinuationRecord
with_request r old = record old { kind = r.kind; input_request = r.input_request }

request_replaced :
    (r old : PendingContinuationRecord) → old.task_id ≡ r.task_id → with_request r old ≡ r
request_replaced r old same i = record {
  task_id = same i;
  kind = r.kind;
  input_request = r.input_request;
}

find_written :
    (r : PendingContinuationRecord) (s : Store)
    → find_pending r.task_id (write_pending r s) ≡ some r
unfolding find_pending write_pending
find_written r s = elim (Option-cases (find_pending r.task_id s)) [
  | inl missing ↦
      ground (arith, missing, lookup-insert pending_key r.task_id r s.pending, eq_refl r.task_id)
  | inr (old, found) ↦ ground (
    arith,
    found,
    lookup-update pending_key r.task_id r.task_id (with_request r) s.pending (λ x. refl),
    eq_refl r.task_id,
    request_replaced r old (key-lookup pending_key r.task_id s.pending old found),
  )
]

pub find_removed :
    (task_id : String) (s : Store) → find_pending task_id (remove_pending task_id s) ≡ none
unfolding find_pending remove_pending
find_removed task_id s =
    ground (arith, lookup-remove pending_key task_id task_id s.pending, eq_refl task_id)

pub consume_found :
    (task_id kind : String) (s : Store) (r : PendingContinuationRecord)
    → find_pending task_id s ≡ some r
    → r.kind ≡ kind
    → consume_pending_continuation task_id kind s ≡ (ok r, remove_pending task_id s)
unfolding consume_pending_continuation
consume_found task_id kind s r h same = ground (arith, h, same, eq_iff r.kind kind)

consume_missing :
    (task_id kind : String) (s : Store)
    → find_pending task_id s ≡ none
    → consume_pending_continuation task_id kind s ≡ (err (no_pending kind task_id), s)
unfolding consume_pending_continuation
consume_missing task_id kind s h = ground (arith, h)

consume_other :
    (other : String) (s : Store) (r : PendingContinuationRecord)
    → find_pending r.task_id s ≡ some r
    → ¬ (r.kind ≡ other)
    → consume_pending_continuation r.task_id other s ≡ (err (wrong_pending other r.task_id), s)
unfolding consume_pending_continuation
consume_other other s r h differs = ground (arith, h, differs, eq_iff r.kind other)

found_after_set :
    (r : PendingContinuationRecord) (s after : Store)
    → set_pending_continuation r s ≡ (ok tt, after)
    → find_pending r.task_id after ≡ some r
unfolding set_pending_continuation get_task
found_after_set r s after h = ground (arith, h, find_written r s)

-- A continuation that was set, over an older one or none, is returned by the first call that consumes
-- it under its kind; a second call raises and changes nothing. A call that expects another kind
-- raises and leaves it in place.
pub set_pending_continuation-consume :
    (r : PendingContinuationRecord) (other : String) (s after : Store)
    → set_pending_continuation r s ≡ (ok tt, after)
    → ¬ (r.kind ≡ other)
    → (consume_pending_continuation r.task_id r.kind after ≡ (ok r, remove_pending r.task_id after))
      × (consume_pending_continuation r.task_id r.kind (remove_pending r.task_id after)
          ≡ (err (no_pending r.kind r.task_id), remove_pending r.task_id after))
      × (consume_pending_continuation r.task_id other after
          ≡ (err (wrong_pending other r.task_id), after))
set_pending_continuation-consume r other s after h differs =
    let there = found_after_set r s after h in
    (
      consume_found r.task_id r.kind after r there refl,
      consume_missing r.task_id r.kind (remove_pending r.task_id after)
          (find_removed r.task_id after),
      consume_other other after r there differs,
    )
