-- ===== src/Ledger/Settles.antt =====
-- vermay/langgraph_runtime/nodes.py: the invocation after a recorded execution of a tool.
use mathlib.Core.Path.{subst}
use vermay_agent.Prelude.{
  String, eq_refl, ◌≡◌, ◌∙◌, sym, refl, ap, true, false, none, some, [], ◌∷◌, arith, Option-cases,
  inl, inr,
}
use vermay_agent.Exec.{Error, Result, ok, err, pure, transaction, ◌>>◌}
use vermay_agent.Json.{obj, field, entry, str}
use vermay_agent.Store.{Store, ToolInvocationRecord, ArtifactRecord, running, uncertain}
use vermay_agent.Store.Messages.{upsert_artifact}
use vermay_agent.Store.Messages.Frames.{
  SameWork, SameWork-trans, append_task_event-SameWork, upsert_artifact-SameWork,
}
use vermay_agent.Store.Invocations.{
  find_invocation, update_invocation, rewrite_invocation, is_settled, NewResult, done,
  complete_running, complete_tool_invocation_success, known_invocation, Ending, ended,
  mark_tool_invocation_uncertain,
}
use vermay_agent.Store.Invocations.Machine.{find-update}
use vermay_agent.Store.Invocations.Effects.{rewrite_invocation_lem}
use vermay_agent.Store.Invocations.Complete.{
  invocation_id-find, find_of_same, then_with, append_result_event, artifact_of, result_event,
}
use vermay_agent.Ledger.{ToolResponse, finish_execution, mark_execution_uncertain}
use vermay_agent.Ledger.Wrapper.{
  Attempt, Answer, ran, Executed, returned, raised, finish_or_mark, after_finish,
  recorded_execution,
}

pub record Settled (id : String) (s : Store) : Type 0 where
  pub row : ToolInvocationRecord
  pub found : find_invocation id s ≡ some row
  pub settled : is_settled row.status ≡ true

pub record Open (id : String) (s : Store) : Type 0 where
  pub row : ToolInvocationRecord
  pub found : find_invocation id s ≡ some row
  pub live : is_settled row.status ≡ false

uncertain_of_live :
    (id : String) (e : Ending) (s : Store) (r : ToolInvocationRecord)
    → find_invocation id s ≡ some r
    → is_settled r.status ≡ false
    → mark_tool_invocation_uncertain id e s
      ≡ (ok (ended uncertain e r), update_invocation id (ended uncertain e) s)
unfolding mark_tool_invocation_uncertain known_invocation
uncertain_of_live id e s r h live =
    ground (arith, rewrite_invocation_lem id (ended uncertain e) s r (λ u. refl) h)

settled_by :
    (id : String) (f : ToolInvocationRecord → ToolInvocationRecord) (s : Store)
    (r : ToolInvocationRecord)
    → ((u : ToolInvocationRecord) → (f u).invocation_id ≡ u.invocation_id)
    → find_invocation id s ≡ some r
    → is_settled (f r).status ≡ true
    → Settled id (update_invocation id f s)
settled_by id f s r same h settled = record {
  row = f r;
  found = rw (find-update id id f s same, eq_refl, h) refl;
  settled = settled;
}

-- The row is written last, and then it has succeeded.
row_written :
    (id a : String) (s t u : Store) (r b : ToolInvocationRecord) (o : Result (Unit {0}))
    → SameWork s t
    → find_invocation id s ≡ some r
    → then_with o t (λ _. rewrite_invocation id (done a)) ≡ (ok b, u)
    → Settled id u
row_written id a s t u r b (err e) same h returns = absurd (ground (arith, returns))
row_written id a s t u r b (ok _) same h returns =
    let at_t : find_invocation id t ≡ some r = find_of_same id s t same ∙ h in
    subst (Settled id)
      (ap (λ p. p.1) (sym (rewrite_invocation_lem id (done a) t r (λ v. refl) at_t) ∙ returns))
      (settled_by id (done a) t r (λ v. refl) at_t refl)

result_written :
    (id : String) (s t u : Store) (r b : ToolInvocationRecord) (o : Result ArtifactRecord)
    → SameWork s t
    → find_invocation id s ≡ some r
    → then_with o t (λ artifact.
      append_result_event r artifact.artifact_id
      >> rewrite_invocation id (done artifact.artifact_id))
      ≡ (ok b, u)
    → Settled id u
result_written id s t u r b (err e) same h returns = absurd (ground (arith, returns))
result_written id s t u r b (ok artifact) same h returns =
    let (o, v) = append_result_event r artifact.artifact_id t in
    row_written id artifact.artifact_id s v u r b o
      (SameWork-trans same (
        append_task_event-SameWork r.task_id "task_artifact_created" none
          (some (result_event r artifact.artifact_id)) t))
      h returns

complete_running_settles :
    (result : NewResult) (s u : Store) (r b : ToolInvocationRecord)
    → find_invocation r.invocation_id s ≡ some r
    → complete_running r result s ≡ (ok b, u)
    → Settled r.invocation_id u
unfolding complete_running
complete_running_settles result s u r b h returns =
    let (o, t) = upsert_artifact (artifact_of r result) s in
    result_written r.invocation_id s t u r b o (upsert_artifact-SameWork (artifact_of r result) s) h
      returns

-- What `complete_tool_invocation_success` does for an invocation that runs.
complete_of_running :
    (id : String) (result : NewResult) (s : Store) (r : ToolInvocationRecord)
    → find_invocation id s ≡ some r
    → r.status ≡ running
    → complete_tool_invocation_success id result s ≡ transaction (complete_running r result) s
unfolding complete_tool_invocation_success known_invocation
complete_of_running id result s r h run = ground (arith, h, run)

marked_Settled :
    (id code message : String) (s : Store) (r : ToolInvocationRecord)
    → find_invocation id s ≡ some r
    → is_settled r.status ≡ false
    → (t : Store) × (mark_execution_uncertain id code message s ≡ (ok tt, t)) × Settled id t
unfolding mark_execution_uncertain
marked_Settled id code message s r h live =
    let e : Ending = record { code = code; message = message; retryable = false } in
    (
      update_invocation id (ended uncertain e) s,
      ground (arith, uncertain_of_live id e s r h live),
      settled_by id (ended uncertain e) s r (λ u. refl) h refl,
    )

-- `finish_execution` for an invocation that runs settles it, or raises and changes nothing.
record Finished (id : String) (s : Store) (p : Result (Unit {0}) × Store) : Type 0 where
  done_ : p.0 ≡ ok tt → Settled id p.1
  undone : (e : Error) → p.0 ≡ err e → p.1 ≡ s

-- What `finish_execution` hands over as the result.
abbrev success_result : String → ToolResponse → NewResult
success_result id response = record {
  artifact_parts = obj (field "kind" (str "text") (entry "text" (str response.text))) ∷ [];
  artifact_metadata =
      field "kind" (str "tool_invocation_result")
        (field "invocationId" (str id) (entry "toolResultStatus" (str response.status)));
}

abbrev closed : Store → Result ToolInvocationRecord × Store → Result (Unit {0}) × Store
closed s (ok a, t) = (ok tt, t)
closed s (err e, t) = (err e, s)

Finished-success :
    (id : String) (result : NewResult) (s : Store) (r : ToolInvocationRecord)
    (p : Result ToolInvocationRecord × Store)
    → r.invocation_id ≡ id
    → find_invocation id s ≡ some r
    → complete_running r result s ≡ p
    → Finished id s (closed s p)
Finished-success id result s r (ok b, t) own h returns = record {
  done_ = λ _.
      subst (λ k. Settled k t) own
        (complete_running_settles result s t r b
          (subst (λ k. find_invocation k s ≡ some r) (sym own) h) returns);
  undone = λ e raises. absurd (ground (arith, raises));
}
Finished-success id result s r (err e, t) own h returns = record {
  done_ = λ answers. absurd (ground (arith, answers));
  undone = λ e2 raises. refl;
}

finish_of_success :
    (id : String) (response : ToolResponse) (s : Store) (r : ToolInvocationRecord)
    → response.failure ≡ none
    → find_invocation id s ≡ some r
    → r.status ≡ running
    → finish_execution id response s ≡ closed s (complete_running r (success_result id response) s)
unfolding finish_execution
finish_of_success id response s r none_found h run =
    ground (arith, none_found, complete_of_running id (success_result id response) s r h run)

finish_Finished :
    (id : String) (response : ToolResponse) (s : Store) (r : ToolInvocationRecord)
    → find_invocation id s ≡ some r
    → r.status ≡ running
    → Finished id s (finish_execution id response s)
unfolding finish_execution
finish_Finished id response s r h run = elim (Option-cases response.failure) [
  | inl success ↦ subst (Finished id s) (sym (finish_of_success id response s r success h run)) (
      Finished-success id (success_result id response) s r
        (complete_running r (success_result id response) s) (invocation_id-find id s r h) h refl)
  | inr ((code, message), failure) ↦
      let (t, marked, settled) = marked_Settled id code message s r h (ground (arith, run)) in
      let same : (ok tt, t) ≡ finish_execution id response s = ground (arith, failure, marked) in
      subst (Finished id s) same
        (record { done_ = λ _. settled; undone = λ e raises. absurd (ground (arith, raises)) })
]

-- Whatever the tool does, the invocation that it ran under is settled.
pub record Recorded (id : String) (p : Result Answer × Store) : Type 0 where
  pub answers : (x : Executed) × (p.0 ≡ ok (ran (some id) x))
  pub settled : Settled id p.1

Recorded-marked :
    (id code message text : String) (s : Store) (r : ToolInvocationRecord)
    → find_invocation id s ≡ some r
    → r.status ≡ running
    → Recorded id
        ((mark_execution_uncertain id code message >> pure (ran (some id) (raised text))) s)
Recorded-marked id code message text s r h run =
    let (t, marked, settled) = marked_Settled id code message s r h (ground (arith, run)) in
    let same : (ok (ran (some id) (raised text)), t)
        ≡ (mark_execution_uncertain id code message >> pure (ran (some id) (raised text))) s =
      ground (arith, marked) in
    subst (Recorded id) same (record { answers = (raised text, refl); settled = settled })

Recorded-finish :
    (a : Attempt) (id : String) (response : ToolResponse) (s : Store) (r : ToolInvocationRecord)
    (p : Result (Unit {0}) × Store)
    → find_invocation id s ≡ some r
    → r.status ≡ running
    → Finished id s p
    → Recorded id (after_finish a id response p)
unfolding after_finish
Recorded-finish a id response s r (ok _, t) h run finished = record {
  answers = (returned response, refl);
  settled = finished.done_ refl;
}
Recorded-finish a id response s r (err x, t) h run finished =
    rw (finished.undone x refl) (Recorded-marked id _ _ _ s r h run)

pub Recorded-recorded_execution :
    (a : Attempt) (id : String) (s : Store) (r : ToolInvocationRecord) (x : Executed)
    → a.executed ≡ x
    → find_invocation id s ≡ some r
    → r.status ≡ running
    → Recorded id (recorded_execution a id s)
unfolding recorded_execution finish_or_mark
Recorded-recorded_execution a id s r (returned response) e h run =
    rw (e, recorded_execution)
      (Recorded-finish a id response s r (finish_execution id response s) h run
        (finish_Finished id response s r h run))
Recorded-recorded_execution a id s r (raised text) e h run =
    rw (e, recorded_execution) (Recorded-marked id _ _ _ s r h run)
