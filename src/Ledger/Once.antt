-- ===== src/Ledger/Once.antt =====
-- vermay/langgraph_runtime/nodes.py: repeated calls of `tool_call_wrapper` on one invocation.
use mathlib.Core.Path.{subst}
use vermay_agent.Prelude.{
  String, eq_refl, ◌≡◌, ◌∙◌, sym, refl, ap, Bool, true, false, not, Option, none, some, List,
  if◌then◌else◌, arith, Bool-cases, Option-cases, inl, inr,
}
use vermay_agent.Exec.{Error, unknown_tool_invocation, Result, ok, err, Exec}
use vermay_agent.Store.{Store, ToolInvocationRecord, running}
use vermay_agent.Store.Invocations.{
  find_invocation, update_invocation, is_settled, known_invocation, started, begin_tool_invocation,
}
use vermay_agent.Store.Invocations.Machine.{
  Advances, Advances-refl, Advances-trans, find-update, may_become,
}
use vermay_agent.Store.Invocations.Effects.{can_begin, started_id, begin-Advances}
use vermay_agent.Store.Invocations.Runs.{InvocationCall, after_calls, settled_stays}
use vermay_agent.Ledger.{ToolInvocationReference, ToolInvocationExecution, cancel, begin_execution}
use vermay_agent.Ledger.Execution.{begin_execution_grants}
use vermay_agent.Ledger.Wrapper.{
  Attempt, Answer, blocked, ran, Executed, recorded_execution, if_granted, with_reference,
  cancel_reference, prepare_unless_known, tool_call_wrapper,
}
use vermay_agent.Ledger.Settles.{Settled, Open, Recorded, Recorded-recorded_execution}
use vermay_agent.Ledger.Prepares.{prepare-Advances}

-- The invocation that the tool ran under.
abbrev pub ran_under : Answer → Option String
ran_under (blocked _) = none
ran_under (ran id _) = id

-- From `s`, a tool that ran under an invocation found it open, and left it settled.
abbrev Careful : Store → Result Answer × Store → Type 0
Careful s p =
    (x : Answer) (id : String)
    → p.0 ≡ ok x
    → ran_under x ≡ some id
    → (u : Store) × Advances s u × Open id u × Settled id p.1

Careful-blocked : (s t : Store) (m : Option String) → Careful s (ok (blocked m), t)
Careful-blocked s t m x id answered under = absurd (ground (arith, answered, under))

Careful-unrecorded : (s t : Store) (e : Executed) → Careful s (ok (ran none e), t)
Careful-unrecorded s t e x id answered under = absurd (ground (arith, answered, under))

Careful-raised : (s t : Store) (e : Error) → Careful s (err e, t)
Careful-raised s t e x id answered under = absurd (ground (arith, answered))

Careful-Recorded :
    (s u : Store) (id : String) (p : Result Answer × Store)
    → Advances s u
    → Open id u
    → Recorded id p
    → Careful s p
Careful-Recorded s u id p reach open_ recorded x k answered under =
    let (e, answers) = recorded.answers in
    let same : k ≡ id = ground (arith, answered, under, answers) in
    subst (λ j. (v : Store) × Advances s v × Open j v × Settled j p.1) (sym same)
      (u, reach, open_, recorded.settled)

Careful-granted :
    (a : Attempt) (id : String) (s u : Store) (r : ToolInvocationRecord)
    (e : ToolInvocationExecution)
    → Advances s u
    → find_invocation id u ≡ some r
    → (e.execute ≡ true → r.status ≡ running)
    → Careful s (if_granted a id e u)
unfolding if_granted
Careful-granted a id s u r e reach h run = elim (Bool-cases e.execute) [
  | inr refused ↦ rw refused (Careful-blocked s u e.message)
  | inl granted ↦ rw granted (
      Careful-Recorded s u id (recorded_execution a id u) reach
        (record { row = r; found = h; live = ground (arith, run granted) })
        (Recorded-recorded_execution a id u r a.executed refl h (run granted)))
]

begin_execution_unknown :
    (id : String) (s : Store)
    → find_invocation id s ≡ none
    → (e : Error) × (begin_execution id s ≡ (err e, s))
unfolding begin_execution begin_tool_invocation known_invocation
begin_execution_unknown id s h = (unknown_tool_invocation id, ground (arith, h))

found_started :
    (id : String) (s : Store) (r : ToolInvocationRecord)
    → find_invocation id s ≡ some r
    → find_invocation id (update_invocation id started s) ≡ some (started r)
found_started id s r h = rw (find-update id id started s started_id, eq_refl, h) refl

-- A granted execution finds its invocation running.
running_when_granted :
    (id : String) (s t : Store) (r : ToolInvocationRecord) (e : ToolInvocationExecution)
    → find_invocation id s ≡ some r
    → begin_execution id s ≡ (ok e, t)
    → (u : ToolInvocationRecord) × (find_invocation id t ≡ some u)
      × (e.execute ≡ true → u.status ≡ running)
running_when_granted id s t r e h begun =
    let (e2, after, answered, grant, kept) = begin_execution_grants id s r h in
    let reached : t ≡ after = ap (λ p. p.1) (sym begun ∙ answered) in
    let same : ok e ≡ ok e2 = ap (λ p. p.0) (sym begun ∙ answered) in
    elim (Bool-cases (can_begin r)) [
      | inl able ↦
          let t_is : t ≡ update_invocation id started s = ground (arith, reached, kept, able) in
          (started r, ground (arith, t_is, found_started id s r h), λ _. ground (arith, able))
      | inr unable ↦
          let t_is : t ≡ s = ground (arith, reached, kept, unable) in
          (r, ground (arith, t_is, h), λ granted. ground (arith, granted, same, grant, unable))
    ]

begin_execution-Advances :
    (id : String) (s t : Store) (o : Result ToolInvocationExecution)
    → begin_execution id s ≡ (o, t)
    → Advances s t
unfolding begin_execution
begin_execution-Advances id s t o begun =
    subst (Advances s) (ground (arith, begun)) (begin-Advances id s)

Careful-begun :
    (a : Attempt) (id : String) (s u : Store) (p : Result ToolInvocationExecution × Store)
    → Advances s u
    → begin_execution id u ≡ p
    → Careful s (elim p.0 [ ok e ↦ if_granted a id e p.1 | err e ↦ (err e, p.1) ])
Careful-begun a id s u (err e, t) reach begun = Careful-raised s t e
Careful-begun a id s u (ok e, t) reach begun = elim (Option-cases (find_invocation id u)) [
  | inl h ↦
      let (x, raises) = begin_execution_unknown id u h in absurd (ground (arith, raises, begun))
  | inr (r, h) ↦
      let (v, at_t, runs) = running_when_granted id u t r e h begun in
      Careful-granted a id s t v e
        (Advances-trans reach (begin_execution-Advances id u t (ok e) begun)) at_t runs
]

Careful-if :
    (b : Bool) (m n : Exec Store Answer) (s u : Store)
    → Careful s (m u)
    → Careful s (n u)
    → Careful s ((if b then m else n) u)
Careful-if true m n s u first second = first
Careful-if false m n s u first second = second

-- A call that comes before a blocked answer.
Careful-then_blocked :
    (s : Store) (m : Option String) (p : Result (Unit {0}) × Store)
    → Careful s (elim p.0 [ ok _ ↦ (ok (blocked m), p.1) | err e ↦ (err e, p.1) ])
Careful-then_blocked s m (ok _, t) = Careful-blocked s t m
Careful-then_blocked s m (err e, t) = Careful-raised s t e

Careful-with_reference :
    (a : Attempt) (reference : Option ToolInvocationReference) (s u : Store)
    → Advances s u
    → Careful s (with_reference a reference u)
unfolding with_reference
Careful-with_reference a none s u reach = Careful-unrecorded s u a.executed
Careful-with_reference a (some reference) s u reach =
    let id = reference.invocation_id in
    Careful-if reference.execution_blocked _ _ s u (Careful-blocked s u reference.blocked_reason) (
      Careful-if a.cancelled_later _ _ s u
        (Careful-then_blocked s (some a.cancellation) (cancel id a.cancellation u))
        (Careful-begun a id s u (begin_execution id u) reach refl))

Careful-prepared :
    (a : Attempt) (s : Store) (p : Result (Option ToolInvocationReference) × Store)
    → Advances s p.1
    → Careful s (elim p.0 [ ok r ↦ with_reference a r p.1 | err e ↦ (err e, p.1) ])
Careful-prepared a s (ok r, t) reach = Careful-with_reference a r s t reach
Careful-prepared a s (err e, t) reach = Careful-raised s t e

prepare_unless_known-Advances :
    (a : Attempt) (reference : Option ToolInvocationReference) (s : Store)
    → Advances s (prepare_unless_known a reference s).1
unfolding prepare_unless_known
prepare_unless_known-Advances a none s = prepare-Advances a.call a.invocation_id s
prepare_unless_known-Advances a (some reference) s = Advances-refl s

Careful-cancel_reference :
    (a : Attempt) (reference : Option ToolInvocationReference) (s : Store)
    → Careful s (cancel_reference a reference s)
unfolding cancel_reference
Careful-cancel_reference a none s = Careful-blocked s s (some a.cancellation)
Careful-cancel_reference a (some reference) s =
    Careful-then_blocked s (some a.cancellation) (cancel reference.invocation_id a.cancellation s)

tool_call_wrapper-Careful : (a : Attempt) (s : Store) → Careful s (tool_call_wrapper a s)
unfolding tool_call_wrapper
tool_call_wrapper-Careful a s =
    Careful-if (not a.recorded) _ _ s s
      (Careful-if a.cancelled _ _ s s (Careful-blocked s s (some a.cancellation))
        (Careful-unrecorded s s a.executed))
      (Careful-if a.cancelled _ _ s s (Careful-cancel_reference a a.reference s) (
        Careful-prepared a s (prepare_unless_known a a.reference s)
          (prepare_unless_known-Advances a a.reference s)))

open_not_settled :
    (r r2 live : ToolInvocationRecord)
    → some r2 ≡ some live
    → may_become r.status r2.status ≡ true
    → is_settled r.status ≡ true
    → ¬ (is_settled live.status ≡ false)
open_not_settled r r2 live same step settled open_ = ground (arith, same, step, settled, open_)

-- Once the wrapper has run a tool under an invocation of the ledger, whatever the tool did, the
-- wrapper runs no tool under that invocation again, whatever calls on the ledger's invocations come
-- between.
pub tool_call_wrapper_once :
    (a b : Attempt) (calls : List InvocationCall) (s t u : Store) (x y : Answer) (id : String)
    → tool_call_wrapper a s ≡ (ok x, t)
    → ran_under x ≡ some id
    → tool_call_wrapper b (after_calls calls t) ≡ (ok y, u)
    → ¬ (ran_under y ≡ some id)
tool_call_wrapper_once a b calls s t u x y id first under second again =
    let (v, _, _, settled) = tool_call_wrapper-Careful a s x id (ap (λ p. p.0) first) under in
    let at_t : Settled id t = subst (Settled id) (ap (λ p. p.1) first) settled in
    let (w, reach, open_, _) =
      tool_call_wrapper-Careful b (after_calls calls t) y id (ap (λ p. p.0) second) again in
    let (r, found, same, _, _, _) = settled_stays calls t id at_t.row at_t.found at_t.settled in
    let (r2, found2, step) = reach.kept id r found in
    open_not_settled r r2 open_.row (ground (arith, found2, open_.found)) step.status
      (ground (arith, same, at_t.settled)) open_.live
