-- ===== src/Store/Invocations/Complete.antt =====
-- The success of an invocation: artifact, event and row in one transaction.
use vermay_agent.Prelude.{
  String, ◌≡◌, refl, Bool, true, false, none, some, arith, if◌then◌else◌, Option-cases, ◌∙◌, inl,
  inr,
}
use vermay_agent.Prelude.Table.{key-lookup}
use vermay_agent.Exec.{Result, ok, err, ◌>>◌}
use vermay_agent.Json.{Fields, str, field, entry}
use vermay_agent.Store.{Store, ToolInvocationRecord, running, ArtifactRecord, invocation_key}
use vermay_agent.Store.Tasks.{append_task_event}
use vermay_agent.Store.Messages.{upsert_artifact}
use vermay_agent.Store.Messages.Frames.{
  SameWork, SameWork-trans, append_task_event-SameWork, upsert_artifact-SameWork,
  upsert_artifact_id,
}
use vermay_agent.Store.Invocations.{
  find_invocation, known_invocation, rewrite_invocation, invocation_status_eq, result_artifact,
  NewResult, done, complete_running, complete_tool_invocation_success,
}
use vermay_agent.Store.Invocations.Effects.{rewrite_invocation_lem}
use vermay_agent.Store.Invocations.Machine.{
  Evolves, IsSound, Advances, Advances-update, Advances-refl, Advances-same, Advances-trans,
}

pub invocation_id-find :
    (id : String) (s : Store) (r : ToolInvocationRecord)
    → find_invocation id s ≡ some r
    → r.invocation_id ≡ id
unfolding find_invocation
invocation_id-find id s r h = key-lookup invocation_key id s.invocations r h

pub find_of_same :
    (j : String) (s t : Store) → SameWork s t → find_invocation j t ≡ find_invocation j s
unfolding find_invocation
find_of_same j s t same = ground (arith, same.invocations)

done-Evolves : (a : String) (r : ToolInvocationRecord) → r.status ≡ running → Evolves r (done a r)
done-Evolves a r h = ground arith

done-IsSound :
    (a : String) (r : ToolInvocationRecord)
    → r.status ≡ running
    → a ≡ result_artifact r.invocation_id
    → IsSound r
    → IsSound (done a r)
done-IsSound a r run e h = ground arith

abbrev pub artifact_of : ToolInvocationRecord → NewResult → ArtifactRecord
artifact_of r result = record {
  artifact_id = result_artifact r.invocation_id;
  task_id = r.task_id;
  context_id = r.context_id;
  parts = result.artifact_parts;
  metadata = result.artifact_metadata;
}

same_Advances : (s t : Store) → SameWork s t → Advances s t
same_Advances s t same = Advances-same s t (λ j. find_of_same j s t same)

abbrev pub then_with :
    {A B : Type 0} → Result A → Store → (A → Store → Result B × Store) → Result B × Store
then_with o t f = elim o [ ok a ↦ f a t | err e ↦ (err e, t) ]

-- The row is written last, whatever the step before it (`o`, `t`) came to.
write_row :
    (r : ToolInvocationRecord) (a : String) (s t : Store) (o : Result (Unit {0}))
    → SameWork s t
    → find_invocation r.invocation_id s ≡ some r
    → r.status ≡ running
    → a ≡ result_artifact r.invocation_id
    → Advances s (then_with o t (λ _. rewrite_invocation r.invocation_id (done a))).1
write_row r a s t (err e) same at_r run id = same_Advances s t same
write_row r a s t (ok _) same at_r run id =
    let at_t : find_invocation r.invocation_id t ≡ some r =
      find_of_same r.invocation_id s t same ∙ at_r in
    rw (rewrite_invocation_lem r.invocation_id (done a) t r (λ u. refl) at_t) (
      Advances-trans (same_Advances s t same) (
        Advances-update r.invocation_id (done a) t r (λ u. refl) at_t (done-Evolves a r run)
          (done-IsSound a r run id)))

abbrev pub result_event : ToolInvocationRecord → String → Fields
result_event r a =
    field "artifact_id" (str a)
      (field "kind" (str "tool_invocation_result") (entry "invocation_id" (str r.invocation_id)))

abbrev pub append_result_event : ToolInvocationRecord → String → Store → Result (Unit {0}) × Store
append_result_event r a =
    append_task_event r.task_id "task_artifact_created" none (some (result_event r a))

-- The event and the row, whatever the artifact (`o`, `t`) came to.
write_result :
    (r : ToolInvocationRecord) (s t : Store) (o : Result ArtifactRecord)
    → SameWork s t
    → find_invocation r.invocation_id s ≡ some r
    → r.status ≡ running
    → ((b : ArtifactRecord) → o ≡ ok b → b.artifact_id ≡ result_artifact r.invocation_id)
    → Advances s
        (then_with o t (λ b.
          append_result_event r b.artifact_id
          >> rewrite_invocation r.invocation_id (done b.artifact_id))).1
write_result r s t (err e) same at_r run id = same_Advances s t same
write_result r s t (ok b) same at_r run id =
    let (o, u) = append_result_event r b.artifact_id t in
    let next : SameWork t u =
      append_task_event-SameWork r.task_id "task_artifact_created" none
        (some (result_event r b.artifact_id)) t in
    let whole : SameWork s u = SameWork-trans same next in
    write_row r b.artifact_id s u o whole at_r run (id b refl)

complete_running-Advances :
    (r : ToolInvocationRecord) (result : NewResult) (s : Store)
    → find_invocation r.invocation_id s ≡ some r
    → r.status ≡ running
    → Advances s (complete_running r result s).1
unfolding complete_running
complete_running-Advances r result s at_r run =
    let (o, t) = upsert_artifact (artifact_of r result) s in
    write_result r s t o (upsert_artifact-SameWork (artifact_of r result) s) at_r run
      (λ b h. upsert_artifact_id (artifact_of r result) b s h)

-- The transaction keeps the step's store or takes it back.
abbrev settled : Store → Result ToolInvocationRecord × Store → Result ToolInvocationRecord × Store
settled s (ok a, t) = (ok a, t)
settled s (err e, t) = (err e, s)

settled-Advances :
    (s : Store) (p : Result ToolInvocationRecord × Store)
    → Advances s p.1
    → Advances s (settled s p).1
settled-Advances s (ok a, t) h = h
settled-Advances s (err e, t) h = Advances-refl s

complete_effect :
    (id : String) (result : NewResult) (s : Store) (r : ToolInvocationRecord)
    → find_invocation id s ≡ some r
    → (complete_tool_invocation_success id result s).1 ≡ (
        if invocation_status_eq r.status running
        then (settled s (complete_running r result s)).1
        else s)
unfolding complete_tool_invocation_success known_invocation
complete_effect id result s r h = ground arith

complete_of_unknown :
    (id : String) (result : NewResult) (s : Store)
    → find_invocation id s ≡ none
    → (complete_tool_invocation_success id result s).1 ≡ s
unfolding complete_tool_invocation_success known_invocation
complete_of_unknown id result s h = ground arith

complete_of_known :
    (id : String) (result : NewResult) (s : Store) (r : ToolInvocationRecord)
    → find_invocation id s ≡ some r
    → (b : Bool) → invocation_status_eq r.status running ≡ b
    → Advances s (complete_tool_invocation_success id result s).1
complete_of_known id result s r h true run = rw (complete_effect id result s r h) (
    rw run (
      settled-Advances s (complete_running r result s) (
        complete_running-Advances r result s (ground (arith, invocation_id-find id s r h))
          (ground arith))))
complete_of_known id result s r h false other =
    rw (complete_effect id result s r h) (rw other (Advances-refl s))

pub complete-Advances :
    (id : String) (result : NewResult) (s : Store)
    → Advances s (complete_tool_invocation_success id result s).1
complete-Advances id result s = elim (Option-cases (find_invocation id s)) [
  | inl h ↦ rw (complete_of_unknown id result s h) (Advances-refl s)
  | inr (r, h) ↦ complete_of_known id result s r h (invocation_status_eq r.status running) refl
]
