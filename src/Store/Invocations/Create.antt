-- ===== src/Store/Invocations/Create.antt =====
-- Creating an invocation, or finding the one that a replay names; and the updates of a whole Task.
use vermay_agent.Prelude.{
  String, eq_refl, ℕ, nat_eq, ap, ◌≡◌, refl, true, none, some, arith, Option-cases, ◌⊎◌, inl, inr,
}
use vermay_agent.Exec.{ok}
use vermay_agent.Store.{Store, ToolInvocationRecord, prepared, running, uncertain}
use vermay_agent.Store.Tasks.{find_task, get_task}
use vermay_agent.Store.Invocations.{
  find_invocation, insert_invocation, known_invocation, NewInvocation, row_of, same_execution,
  first_match, validated, create_invocation, create_or_get_tool_invocation, dropped, ended, Ending,
  of_task, cancel_all_prepared, all_running_uncertain,
}
use vermay_agent.Store.Invocations.Machine.{
  Evolves, IsSound, Advances, Advances-insert, Advances-refl, Advances-map, find-insert,
}

row_of-IsSound : (n : NewInvocation) → IsSound (row_of n)
row_of-IsSound n = ground arith

known_after_insert :
    (n : NewInvocation) (s : Store)
    → find_invocation n.invocation_id s ≡ none
    → known_invocation n.invocation_id (insert_invocation (row_of n) s)
      ≡ (ok (row_of n), insert_invocation (row_of n) s)
unfolding known_invocation
known_after_insert n s fresh = rw (find-insert n.invocation_id (row_of n) s, fresh, eq_refl)

create_invocation_lem :
    (n : NewInvocation) (s : Store)
    → find_invocation n.invocation_id s ≡ none
    → create_invocation n s ≡ elim (first_match (same_execution n) s.invocations) [
      | some match ↦ validated n match s
      | none ↦ (ok (row_of n), insert_invocation (row_of n) s)
    ]
unfolding create_invocation
create_invocation_lem n s fresh = ground (arith, known_after_insert n s fresh)

validated_same :
    (n : NewInvocation) (r : ToolInvocationRecord) (s : Store) → (validated n r s).1 ≡ s
unfolding validated
validated_same n r s = ground arith

create_invocation_effect :
    (n : NewInvocation) (s : Store)
    → find_invocation n.invocation_id s ≡ none
    → ((create_invocation n s).1 ≡ s)
      ⊎ (create_invocation n s ≡ (ok (row_of n), insert_invocation (row_of n) s))
create_invocation_effect n s fresh =
    elim (Option-cases (first_match (same_execution n) s.invocations)) [
      | inl unmatched ↦ inr (ground (arith, create_invocation_lem n s fresh))
      | inr (r, matched) ↦
          inl (ground (arith, create_invocation_lem n s fresh, validated_same n r s))
    ]

create_effect :
    (n : NewInvocation) (s : Store)
    → ((create_or_get_tool_invocation n s).1 ≡ s)
      ⊎ ((find_invocation n.invocation_id s ≡ none)
          × (create_or_get_tool_invocation n s ≡ (ok (row_of n), insert_invocation (row_of n) s)))
unfolding create_or_get_tool_invocation get_task
create_effect n s = elim (Option-cases (find_invocation n.invocation_id s)) [
  | inl fresh ↦ ground (arith, create_invocation_effect n s fresh)
  | inr (r, h) ↦ inl (ground (arith, validated_same n r s))
]

pub create-Advances :
    (n : NewInvocation) (s : Store) → Advances s (create_or_get_tool_invocation n s).1
create-Advances n s = elim (create_effect n s) [
  | inl same ↦ rw same (Advances-refl s)
  | inr (fresh, inserted) ↦ rw inserted (Advances-insert (row_of n) s fresh (row_of-IsSound n))
]

module _ (task_id : String) where
  of_prepared-Evolves :
      (reason : String) (r : ToolInvocationRecord)
      → Evolves r (of_task task_id prepared (dropped reason) r)
  of_prepared-Evolves reason r = ground arith

  of_prepared-IsSound :
      (reason : String) (r : ToolInvocationRecord)
      → IsSound r
      → IsSound (of_task task_id prepared (dropped reason) r)
  of_prepared-IsSound reason r h = ground arith

  pub cancel_all-Advances :
      (reason : String) (s : Store) → Advances s (cancel_all_prepared task_id reason s)
  unfolding cancel_all_prepared
  cancel_all-Advances reason s =
      Advances-map (of_task task_id prepared (dropped reason)) s
        (λ r. (of_prepared-Evolves reason r).same_id) (of_prepared-Evolves reason)
        (of_prepared-IsSound reason)

  of_running-Evolves :
      (e : Ending) (r : ToolInvocationRecord)
      → Evolves r (of_task task_id running (ended uncertain e) r)
  of_running-Evolves e r = ground arith

  of_running-IsSound :
      (e : Ending) (r : ToolInvocationRecord)
      → IsSound r
      → IsSound (of_task task_id running (ended uncertain e) r)
  of_running-IsSound e r h = ground arith

  pub all_running-Advances :
      (e : Ending) (s : Store) → Advances s (all_running_uncertain task_id e s)
  unfolding all_running_uncertain
  all_running-Advances e s =
      Advances-map (of_task task_id running (ended uncertain e)) s
        (λ r. (of_running-Evolves e r).same_id) (of_running-Evolves e) (of_running-IsSound e)

nat_eq_refl : (n : ℕ) → nat_eq n n ≡ true
nat_eq_refl n = ground arith

-- The row written for a request has the identity that the request names.
validated_row : (n : NewInvocation) (s : Store) → validated n (row_of n) s ≡ (ok (row_of n), s)
unfolding validated
validated_row n s = simp (eq_refl, nat_eq_refl)

find_task-insert :
    (id : String) (r : ToolInvocationRecord) (s : Store)
    → find_task id (insert_invocation r s) ≡ find_task id s
unfolding find_task insert_invocation
find_task-insert id r s = refl

found_row :
    (n : NewInvocation) (s : Store)
    → find_invocation n.invocation_id s ≡ none
    → find_invocation n.invocation_id (insert_invocation (row_of n) s) ≡ some (row_of n)
found_row n s fresh = rw (find-insert n.invocation_id (row_of n) s, fresh, eq_refl)

-- The checks behind the first call hold in the store that it leaves.
again_after_insert :
    (n : NewInvocation) (s : Store) (r : ToolInvocationRecord)
    → find_invocation n.invocation_id s ≡ none
    → (create_or_get_tool_invocation n s).0 ≡ ok r
    → create_or_get_tool_invocation n (insert_invocation (row_of n) s)
      ≡ (ok (row_of n), insert_invocation (row_of n) s)
unfolding create_or_get_tool_invocation get_task
again_after_insert n s r fresh h = ground (
  arith,
  found_row n s fresh,
  find_task-insert n.task_id (row_of n) s,
  validated_row n (insert_invocation (row_of n) s),
)

-- Asked again for the invocation that it has just returned, the store returns the same record and
-- writes nothing.
pub create_again :
    (n : NewInvocation) (s : Store) (r : ToolInvocationRecord)
    → (create_or_get_tool_invocation n s).0 ≡ ok r
    → create_or_get_tool_invocation n (create_or_get_tool_invocation n s).1
      ≡ (ok r, (create_or_get_tool_invocation n s).1)
create_again n s r h = elim (create_effect n s) [
  | inl same ↦ rw same (λ i. (h i, same i))
  | inr (fresh, inserted) ↦ ground (arith, again_after_insert n s r fresh, ap (λ p. p.0) inserted)
]
