-- ===== src/Store/Invocations/Effects.antt =====
-- What each operation on tool invocations does to the store, transactions and reads worked out.
use vermay_agent.Prelude.{
  Option-cases, inl, inr, String, ◌==◌, eq_refl, ◌≡◌, refl, Bool, true, false, not, ◌&&◌, ◌||◌,
  Option, none, some, arith, if◌then◌else◌,
}
use vermay_agent.Exec.{ok}
use vermay_agent.Store.{Store, ToolInvocationRecord, prepared, uncertain, approved, pending}
use vermay_agent.Store.Invocations.{
  find_invocation, update_invocation, known_invocation, rewrite_invocation, invocation_status_eq,
  approval_eq, started, begin_tool_invocation, Binding, decided, resolve_tool_invocation_approval,
  Ending, ended, is_settled, mark_tool_invocation_uncertain, dropped, cancel_tool_invocation,
}
use vermay_agent.Store.Invocations.Machine.{
  find-update, Evolves, IsSound, Advances, Advances-update, Advances-refl,
}

pub rewrite_invocation_lem :
    (k : String) (f : ToolInvocationRecord → ToolInvocationRecord) (s : Store)
    (r : ToolInvocationRecord)
    → ((r : ToolInvocationRecord) → (f r).invocation_id ≡ r.invocation_id)
    → find_invocation k s ≡ some r
    → rewrite_invocation k f s ≡ (ok (f r), update_invocation k f s)
unfolding rewrite_invocation known_invocation
rewrite_invocation_lem k f s r same h = rw (find-update k k f s same, eq_refl, h)

-- Prepared, and approved if it needs an approval.
abbrev pub can_begin : ToolInvocationRecord → Bool
can_begin r =
    invocation_status_eq r.status prepared
    && (not r.approval_required || approval_eq r.approval_status approved)

pub started_id : (r : ToolInvocationRecord) → (started r).invocation_id ≡ r.invocation_id
started_id r = ground arith

pub begin_of_known :
    (id : String) (s : Store) (r : ToolInvocationRecord)
    → find_invocation id s ≡ some r
    → begin_tool_invocation id s
      ≡ (if can_begin r then (ok (started r), update_invocation id started s) else (ok r, s))
unfolding begin_tool_invocation known_invocation
begin_of_known id s r h = ground (arith, rewrite_invocation_lem id started s r started_id h)

pub begin_of_unknown :
    (id : String) (s : Store) → find_invocation id s ≡ none → (begin_tool_invocation id s).1 ≡ s
unfolding begin_tool_invocation known_invocation
begin_of_unknown id s h = ground arith

started-Evolves : (r : ToolInvocationRecord) → Evolves r (started r)
started-Evolves r = ground arith

started-IsSound : (r : ToolInvocationRecord) → can_begin r ≡ true → IsSound r → IsSound (started r)
started-IsSound r c h = ground arith

-- One of the two outcomes that a call can have: the row `r` rewritten by `f`, or nothing changed.
rewritten_or_same :
    (b : Bool) (k : String) (f : ToolInvocationRecord → ToolInvocationRecord) (s t : Store)
    (r : ToolInvocationRecord)
    → ((r : ToolInvocationRecord) → (f r).invocation_id ≡ r.invocation_id)
    → find_invocation k s ≡ some r
    → (b ≡ true → Evolves r (f r))
    → (b ≡ true → IsSound r → IsSound (f r))
    → t ≡ (if b then update_invocation k f s else s)
    → Advances s t
rewritten_or_same true k f s t r same h step keeps e =
    rw e (Advances-update k f s r same h (step refl) (keeps refl))
rewritten_or_same false k f s t r same h step keeps e = rw e (Advances-refl s)

pub begin-Advances : (id : String) (s : Store) → Advances s (begin_tool_invocation id s).1
begin-Advances id s = elim (Option-cases (find_invocation id s)) [
  | inl h ↦ rw (begin_of_unknown id s h) (Advances-refl s)
  | inr (r, h) ↦
      rewritten_or_same (can_begin r) id started s (begin_tool_invocation id s).1 r started_id h
        (λ _. started-Evolves r) (started-IsSound r) (ground (arith, begin_of_known id s r h))
]

-- Uncertain: unless the row is settled.
ended_id :
    (e : Ending) (r : ToolInvocationRecord) → (ended uncertain e r).invocation_id ≡ r.invocation_id
ended_id e r = refl

uncertain_effect :
    (id : String) (e : Ending) (s : Store) (r : ToolInvocationRecord)
    → find_invocation id s ≡ some r
    → (mark_tool_invocation_uncertain id e s).1
      ≡ (if not (is_settled r.status) then update_invocation id (ended uncertain e) s else s)
unfolding mark_tool_invocation_uncertain known_invocation
uncertain_effect id e s r h =
    ground (arith, rewrite_invocation_lem id (ended uncertain e) s r (ended_id e) h)

uncertain_of_unknown :
    (id : String) (e : Ending) (s : Store)
    → find_invocation id s ≡ none
    → (mark_tool_invocation_uncertain id e s).1 ≡ s
unfolding mark_tool_invocation_uncertain known_invocation
uncertain_of_unknown id e s h = ground arith

uncertain-Evolves :
    (e : Ending) (r : ToolInvocationRecord)
    → not (is_settled r.status) ≡ true
    → Evolves r (ended uncertain e r)
uncertain-Evolves e r allowed = ground arith

uncertain-IsSound :
    (e : Ending) (r : ToolInvocationRecord)
    → not (is_settled r.status) ≡ true
    → IsSound r
    → IsSound (ended uncertain e r)
uncertain-IsSound e r allowed h = ground arith

pub uncertain-Advances :
    (id : String) (e : Ending) (s : Store) → Advances s (mark_tool_invocation_uncertain id e s).1
uncertain-Advances id e s = elim (Option-cases (find_invocation id s)) [
  | inl h ↦ rw (uncertain_of_unknown id e s h) (Advances-refl s)
  | inr (r, h) ↦
      rewritten_or_same (not (is_settled r.status)) id (ended uncertain e) s
        (mark_tool_invocation_uncertain id e s).1 r (ended_id e) h (uncertain-Evolves e r)
        (uncertain-IsSound e r) (uncertain_effect id e s r h)
]

-- Cancelled: only from `prepared`.
cancel_effect :
    (id reason : String) (s : Store) (r : ToolInvocationRecord)
    → find_invocation id s ≡ some r
    → (cancel_tool_invocation id reason s).1 ≡ (
        if invocation_status_eq r.status prepared
        then update_invocation id (dropped reason) s
        else s)
unfolding cancel_tool_invocation known_invocation
cancel_effect id reason s r h =
    ground (arith, rewrite_invocation_lem id (dropped reason) s r (λ u. refl) h)

cancel_of_unknown :
    (id reason : String) (s : Store)
    → find_invocation id s ≡ none
    → (cancel_tool_invocation id reason s).1 ≡ s
unfolding cancel_tool_invocation known_invocation
cancel_of_unknown id reason s h = ground arith

dropped-Evolves :
    (reason : String) (r : ToolInvocationRecord)
    → invocation_status_eq r.status prepared ≡ true
    → Evolves r (dropped reason r)
dropped-Evolves reason r allowed = ground arith

dropped-IsSound :
    (reason : String) (r : ToolInvocationRecord)
    → invocation_status_eq r.status prepared ≡ true
    → IsSound r
    → IsSound (dropped reason r)
dropped-IsSound reason r allowed h = ground arith

pub cancel-Advances :
    (id reason : String) (s : Store) → Advances s (cancel_tool_invocation id reason s).1
cancel-Advances id reason s = elim (Option-cases (find_invocation id s)) [
  | inl h ↦ rw (cancel_of_unknown id reason s h) (Advances-refl s)
  | inr (r, h) ↦
      rewritten_or_same (invocation_status_eq r.status prepared) id (dropped reason) s
        (cancel_tool_invocation id reason s).1 r (λ u. refl) h (dropped-Evolves reason r)
        (dropped-IsSound reason r) (cancel_effect id reason s r h)
]

-- Resolved: a pending approval of a prepared invocation that the binding names.
abbrev pub can_resolve : Binding → Bool → ToolInvocationRecord → Bool
can_resolve b accept r =
    r.task_id == b.task_id
    && r.tool_name == b.tool_name
    && r.arguments_digest == b.arguments_digest
    && r.approval_required
    && approval_eq r.approval_status pending
    && invocation_status_eq r.status prepared

decided_id :
    (accept : Bool) (reason : Option String) (r : ToolInvocationRecord)
    → (decided accept reason r).invocation_id ≡ r.invocation_id
decided_id accept reason r = ground arith

pub resolve_effect :
    (b : Binding) (accept : Bool) (reason : Option String) (s : Store) (r : ToolInvocationRecord)
    → find_invocation b.invocation_id s ≡ some r
    → (resolve_tool_invocation_approval b accept reason s).1 ≡ (
        if can_resolve b accept r
        then update_invocation b.invocation_id (decided accept reason) s
        else s)
unfolding resolve_tool_invocation_approval known_invocation
resolve_effect b accept reason s r h = ground (
  arith,
  rewrite_invocation_lem b.invocation_id (decided accept reason) s r (decided_id accept reason) h,
)

pub resolve_of_unknown :
    (b : Binding) (accept : Bool) (reason : Option String) (s : Store)
    → find_invocation b.invocation_id s ≡ none
    → (resolve_tool_invocation_approval b accept reason s).1 ≡ s
unfolding resolve_tool_invocation_approval known_invocation
resolve_of_unknown b accept reason s h = ground arith

decided-Evolves :
    (b : Binding) (accept : Bool) (reason : Option String) (r : ToolInvocationRecord)
    → can_resolve b accept r ≡ true
    → Evolves r (decided accept reason r)
decided-Evolves b accept reason r allowed = ground arith

decided-IsSound :
    (b : Binding) (accept : Bool) (reason : Option String) (r : ToolInvocationRecord)
    → can_resolve b accept r ≡ true
    → IsSound r
    → IsSound (decided accept reason r)
decided-IsSound b accept reason r allowed h = ground arith

pub resolve-Advances :
    (b : Binding) (accept : Bool) (reason : Option String) (s : Store)
    → Advances s (resolve_tool_invocation_approval b accept reason s).1
resolve-Advances b accept reason s = elim (Option-cases (find_invocation b.invocation_id s)) [
  | inl h ↦ rw (resolve_of_unknown b accept reason s h) (Advances-refl s)
  | inr (r, h) ↦
      rewritten_or_same (can_resolve b accept r) b.invocation_id (decided accept reason) s
        (resolve_tool_invocation_approval b accept reason s).1 r (decided_id accept reason) h
        (decided-Evolves b accept reason r) (decided-IsSound b accept reason r)
        (resolve_effect b accept reason s r h)
]
