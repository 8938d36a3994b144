-- ===== src/Store/Invocations/Machine.antt =====
-- How one durable tool call may change, and how that carries over to the table.
use mathlib.Core.Option
use mathlib.Core.Path.{subst}
use vermay_agent.Prelude.{
  String, ◌==◌, eq_iff, ◌≡◌, ◌⊎◌, Bool, true, false, Option, none, some, map, arith, Bool-cases,
  refl, sym, ◌∙◌, inl, inr, if◌then◌else◌,
}
use vermay_agent.Prelude.Table.{lookup-update, lookup-insert, lookup-map, or_else}
use vermay_agent.Store.{
  Store, ToolInvocationRecord, ToolInvocationStatus, prepared, running, succeeded, failed,
  uncertain, canceled, ToolInvocationApprovalStatus, not_required, pending, approved, rejected,
  invocation_key,
}
use vermay_agent.Store.Invocations.{
  find_invocation, update_invocation, insert_invocation, result_artifact,
}

-- Statuses that an invocation may take after the one that it has.
abbrev pub may_become : ToolInvocationStatus → ToolInvocationStatus → Bool
may_become prepared failed = false
may_become prepared _ = true
may_become running running = true
may_become running succeeded = true
may_become running uncertain = true
may_become succeeded succeeded = true
may_become failed failed = true
may_become uncertain uncertain = true
may_become canceled canceled = true
may_become _ _ = false

-- An operator's decision is not taken back.
abbrev pub may_decide : ToolInvocationApprovalStatus → ToolInvocationApprovalStatus → Bool
may_decide pending not_required = false
may_decide pending _ = true
may_decide not_required not_required = true
may_decide approved approved = true
may_decide rejected rejected = true
may_decide _ _ = false

pub record Evolves (r t : ToolInvocationRecord) : Type 0 where
  pub same_id : t.invocation_id ≡ r.invocation_id
  pub same_task : t.task_id ≡ r.task_id
  pub same_tool : t.tool_name ≡ r.tool_name
  pub same_arguments : t.arguments_digest ≡ r.arguments_digest
  pub same_gate : t.approval_required ≡ r.approval_required
  pub status : may_become r.status t.status ≡ true
  pub approval : may_decide r.approval_status t.approval_status ≡ true

pub record IsSound (r : ToolInvocationRecord) : Type 0 where
  pub gated : r.approval_status ≡ not_required → r.approval_required ≡ false
  pub free : r.approval_required ≡ false → r.approval_status ≡ not_required
  pub running_allowed :
      (r.status ≡ running) ⊎ (r.status ≡ succeeded)
      → (r.approval_status ≡ approved) ⊎ (r.approval_required ≡ false)
  pub rejected_canceled : r.approval_status ≡ rejected → r.status ≡ canceled
  pub succeeded_result :
      r.status ≡ succeeded → r.result_artifact_id ≡ some (result_artifact r.invocation_id)

pub Evolves-refl : (r : ToolInvocationRecord) → Evolves r r
Evolves-refl r = ground arith

may_become_trans :
    (a b c : ToolInvocationStatus)
    → may_become a b ≡ true
    → may_become b c ≡ true
    → may_become a c ≡ true
may_become_trans a b c h k = ground arith

may_decide_trans :
    (a b c : ToolInvocationApprovalStatus)
    → may_decide a b ≡ true
    → may_decide b c ≡ true
    → may_decide a c ≡ true
may_decide_trans a b c h k = ground arith

pub Evolves-trans : {r t u : ToolInvocationRecord} → Evolves r t → Evolves t u → Evolves r u
Evolves-trans {r} {t} {u} p q = record {
  same_id = cc;
  same_task = cc;
  same_tool = cc;
  same_arguments = cc;
  same_gate = cc;
  status = may_become_trans r.status t.status u.status p.status q.status;
  approval =
      may_decide_trans r.approval_status t.approval_status u.approval_status p.approval q.approval;
}

-- From `s` to `t` no invocation is lost, each changes as it may, and sound rows stay sound.
pub record Advances (s t : Store) : Type 0 where
  pub kept :
      (j : String) (r : ToolInvocationRecord)
      → find_invocation j s ≡ some r
      → (u : ToolInvocationRecord) × (find_invocation j t ≡ some u) × Evolves r u
  pub sound :
      ((j : String) (r : ToolInvocationRecord) → find_invocation j s ≡ some r → IsSound r)
      → (j : String) (u : ToolInvocationRecord) → find_invocation j t ≡ some u
      → IsSound u

abbrev pub AllSound : Store → Type 0
AllSound s = (j : String) (r : ToolInvocationRecord) → find_invocation j s ≡ some r → IsSound r

pub Advances-refl : (s : Store) → Advances s s
Advances-refl s = record { kept = λ j r h. (r, h, Evolves-refl r); sound = λ all. all }

pub Advances-trans : {s t u : Store} → Advances s t → Advances t u → Advances s u
Advances-trans p q = record {
  kept = λ j r h.
      let (x, at_x, to_x) = p.kept j r h in
      let (y, at_y, to_y) = q.kept j x at_x in (y, at_y, Evolves-trans to_x to_y);
  sound = λ all. q.sound (p.sound all);
}

-- A step that leaves the table alone.
pub Advances-same :
    (s t : Store) → ((j : String) → find_invocation j t ≡ find_invocation j s) → Advances s t
Advances-same s t same = record {
  kept = λ j r h. (r, ground (arith, h, same j), Evolves-refl r);
  sound = λ all j u h. all j u (ground (arith, h, same j));
}

pub find-update :
    (k j : String) (f : ToolInvocationRecord → ToolInvocationRecord) (s : Store)
    → ((r : ToolInvocationRecord) → (f r).invocation_id ≡ r.invocation_id)
    → find_invocation j (update_invocation k f s)
      ≡ (if k == j then Option.map f (find_invocation j s) else find_invocation j s)
unfolding find_invocation update_invocation
find-update k j f s same = lookup-update invocation_key k j f s.invocations same

pub find-insert :
    (j : String) (new : ToolInvocationRecord) (s : Store)
    → find_invocation j (insert_invocation new s)
      ≡ or_else (find_invocation j s) (if new.invocation_id == j then some new else none)
unfolding find_invocation insert_invocation
find-insert j new s = lookup-insert invocation_key j new s.invocations

module _ (k : String) (f : ToolInvocationRecord → ToolInvocationRecord) (s : Store)
    (r0 : ToolInvocationRecord)
    (same : (r : ToolInvocationRecord) → (f r).invocation_id ≡ r.invocation_id)
    (at_k : find_invocation k s ≡ some r0) where
  kept_by_update :
      (j : String) (r : ToolInvocationRecord)
      → Evolves r0 (f r0)
      → find_invocation j s ≡ some r
      → (u : ToolInvocationRecord) × (find_invocation j (update_invocation k f s) ≡ some u)
        × Evolves r u
  kept_by_update j r step at_j = elim (Bool-cases (k == j)) [
    | inl e ↦
        let k_is_j = (eq_iff k j).0 e in
        let r0_is_r : r0 ≡ r = cc in
        (f r, ground (arith, find-update k j f s same), subst (λ x. Evolves x (f x)) r0_is_r step)
    | inr e ↦ (r, ground (arith, find-update k j f s same), Evolves-refl r)
  ]

  IsSound-by_update :
      (j : String) (u : ToolInvocationRecord)
      → (IsSound r0 → IsSound (f r0))
      → AllSound s
      → find_invocation j (update_invocation k f s) ≡ some u
      → IsSound u
  IsSound-by_update j u step all at_j = elim (Bool-cases (k == j)) [
    | inl e ↦
        let k_is_j = (eq_iff k j).0 e in
        let is_u : f r0 ≡ u = ground (arith, find-update k j f s same) in
        subst IsSound is_u (step (all k r0 at_k))
    | inr e ↦ all j u (ground (arith, find-update k j f s same))
  ]

  pub Advances-update :
      Evolves r0 (f r0) → (IsSound r0 → IsSound (f r0)) → Advances s (update_invocation k f s)
  Advances-update step keeps = record {
    kept = λ j r h. kept_by_update j r step h;
    sound = λ all j u h. IsSound-by_update j u keeps all h;
  }

module _ (f : ToolInvocationRecord → ToolInvocationRecord) (s : Store)
    (same : (r : ToolInvocationRecord) → (f r).invocation_id ≡ r.invocation_id) where
  abbrev all_rows : Store
  all_rows = record s { invocations = map f s.invocations }

  find-map : (j : String) → find_invocation j all_rows ≡ Option.map f (find_invocation j s)
  unfolding find_invocation
  find-map j = lookup-map invocation_key j f s.invocations same

  IsSound-of_map :
      (j : String) (u : ToolInvocationRecord) (o : Option ToolInvocationRecord)
      → find_invocation j s ≡ o
      → ((r : ToolInvocationRecord) → IsSound r → IsSound (f r))
      → AllSound s
      → Option.map f o ≡ some u
      → IsSound u
  IsSound-of_map j u none at_j keeps all h = cc
  IsSound-of_map j u (some r) at_j keeps all h =
      let e : f r ≡ u = cc in subst IsSound e (keeps r (all j r at_j))

  pub Advances-map :
      ((r : ToolInvocationRecord) → Evolves r (f r))
      → ((r : ToolInvocationRecord) → IsSound r → IsSound (f r))
      → Advances s all_rows
  Advances-map step keeps = record {
    kept = λ j r h. (f r, ground (arith, find-map j), step r);
    sound =
        λ all j u h. IsSound-of_map j u (find_invocation j s) refl keeps all (sym (find-map j) ∙ h);
  }

IsSound-of_insert :
    (new : ToolInvocationRecord) (s : Store)
    → IsSound new
    → (j : String) (u : ToolInvocationRecord) → AllSound s
    → (o : Option ToolInvocationRecord) → find_invocation j s ≡ o
    → find_invocation j (insert_invocation new s) ≡ some u
    → IsSound u
IsSound-of_insert new s sound_new j u all none at_j h =
    let e : new ≡ u = ground (arith, find-insert j new s) in subst IsSound e sound_new
IsSound-of_insert new s sound_new j u all (some r) at_j h =
    let e : r ≡ u = ground (arith, find-insert j new s) in subst IsSound e (all j r at_j)

-- A row is added only under a new id.
pub Advances-insert :
    (new : ToolInvocationRecord) (s : Store)
    → find_invocation new.invocation_id s ≡ none
    → IsSound new
    → Advances s (insert_invocation new s)
Advances-insert new s fresh sound_new = record {
  kept = λ j r h. (r, ground (arith, find-insert j new s), Evolves-refl r);
  sound = λ all j u h. IsSound-of_insert new s sound_new j u all (find_invocation j s) refl h;
}
