-- ===== src/Store/Messages.antt =====
-- `MainAgentStore`: Messages, artifacts and the output of a Task.
pub mod Frames
use vermay_agent.Prelude.{
  ℕ, ◌+◌, String, ◌==◌, Bool, true, false, ◌&&◌, ◌-◌, Option, none, some, List, [], ◌∷◌, ◌++◌,
  is_some, opt_eq, not, if◌then◌else◌,
}
use vermay_agent.Prelude.Table.{lookup, update, insert}
use vermay_agent.Exec.{
  Exec, pure, raise, gets, require, transaction, modify, raise_if, ◌>>=◌, ◌>>◌, unknown_task,
  unknown_context, unknown_message, unknown_output_message, message_conflict, artifact_ownership,
}
use vermay_agent.Json.{Json, Fields, end, Json-discrete, items, arr, obj, json_eq}
use vermay_agent.Store.{
  Store, ContextRow, MessageRole, user, agent, system, MessageRecord, TaskRecord, ArtifactRecord,
}
use vermay_agent.Store.Tasks.{find_task, get_task, update_task, or_empty}

abbrev pub role_eq : MessageRole → MessageRole → Bool
role_eq user user = true
role_eq agent agent = true
role_eq system system = true
role_eq _ _ = false

abbrev pub context_key : ContextRow → String
context_key c = c.context_id

abbrev pub message_key : MessageRecord → String
message_key m = m.message_id

abbrev pub artifact_key : ArtifactRecord → String
artifact_key a = a.artifact_id

unfoldable pub find_context : String → Store → Option ContextRow
find_context context_id s = lookup context_key context_id s.contexts

unfoldable pub find_message : String → Store → Option MessageRecord
find_message message_id s = lookup message_key message_id s.messages

unfoldable pub find_artifact : String → Store → Option ArtifactRecord
find_artifact artifact_id s = lookup artifact_key artifact_id s.artifacts

-- `==` on lists of parts
unfoldable pub same_parts : List Json → List Json → Bool
same_parts a b = json_eq (arr (items a)) (arr (items b))

-- What a caller hands to `append_message`.
pub record NewMessage : Type 0 where
  pub message_id : String
  pub context_id : String
  pub role : MessageRole
  pub parts : List Json
  pub task_id : Option String
  pub metadata : Fields

-- UPDATE contexts SET next_message_sequence=next_message_sequence + 1
unfoldable pub next_sequence : String → Store → Store
next_sequence context_id s = record s {
  contexts =
      update context_key context_id
        (λ c. record c { next_message_sequence = c.next_message_sequence + 1 }) s.contexts;
}

abbrev pub message_of : NewMessage → ℕ → MessageRecord
message_of m sequence = record {
  message_id = m.message_id;
  context_id = m.context_id;
  role = m.role;
  parts = m.parts;
  task_id = m.task_id;
  metadata = m.metadata;
  context_sequence = sequence;
}

unfoldable pub insert_message : NewMessage → ℕ → Store → Store
insert_message m sequence s = record s {
  messages = insert message_key (message_of m sequence) s.messages;
}

-- A message that is there already is returned if it is the same one.
unfoldable pub replayed_message : NewMessage → MessageRecord → Exec Store MessageRecord
replayed_message m existing =
    if existing.context_id == m.context_id
      && role_eq existing.role m.role
      && same_parts existing.parts m.parts
      && opt_eq existing.task_id m.task_id
    then pure existing
    else raise (message_conflict m.message_id)

unfoldable pub fresh_message : NewMessage → Exec Store MessageRecord
fresh_message m = do
  modify (next_sequence m.context_id)
  context ← gets (find_context m.context_id)
  row ← require context (unknown_context m.context_id)
  modify (insert_message m (row.next_message_sequence - 1))
  found ← gets (find_message m.message_id)
  require found (unknown_message m.message_id)

unfoldable pub append_message : NewMessage → Exec Store MessageRecord
append_message m = transaction (do
  context ← gets (find_context m.context_id)
  raise_if (not (is_some context)) (unknown_context m.context_id)
  existing ← gets (find_message m.message_id)
  elim existing [ some old ↦ replayed_message m old | none ↦ fresh_message m ])

unfoldable pub set_task_output_message : String → String → Exec Store TaskRecord
set_task_output_message task_id output_message_id = do
  message ← gets (find_message output_message_id)
  raise_if (not (is_some message)) (unknown_output_message output_message_id)
  transaction (do
    found ← get_task task_id
    current ← require found (unknown_task task_id)
    if opt_eq current.output_message_id (some output_message_id) then pure current else (do
      modify (
          update_task task_id (λ t. record t {
            output_message_id = some output_message_id;
            lifecycle_revision = t.lifecycle_revision + 1;
          }))
      found ← get_task task_id
      require found (unknown_task task_id)))

abbrev pub same_artifact : ArtifactRecord → ArtifactRecord → Bool
same_artifact a b = same_parts a.parts b.parts && json_eq (obj a.metadata) (obj b.metadata)

-- INSERT ... ON CONFLICT(artifact_id) DO UPDATE, and the revision of the Task.
unfoldable pub write_artifact : ArtifactRecord → Store → Store
write_artifact a s =
    let stored = record s {
      artifacts =
          if is_some (find_artifact a.artifact_id s)
          then update artifact_key a.artifact_id
              (λ old. record old { parts = a.parts; metadata = a.metadata }) s.artifacts
          else insert artifact_key a s.artifacts;
    } in
    update_task a.task_id (λ t. record t { lifecycle_revision = t.lifecycle_revision + 1 }) stored

unfoldable pub put_artifact : ArtifactRecord → Exec Store ArtifactRecord
put_artifact a = do
  modify (write_artifact a)
  found ← gets (find_artifact a.artifact_id)
  require found (artifact_ownership a.artifact_id)

unfoldable pub upsert_artifact : ArtifactRecord → Exec Store ArtifactRecord
upsert_artifact a = transaction (do
  task ← get_task a.task_id
  raise_if (not (is_some task)) (unknown_task a.task_id)
  found ← gets (find_artifact a.artifact_id)
  elim found [
    | none ↦ put_artifact a
    | some current ↦ (do
      raise_if (not (current.task_id == a.task_id && current.context_id == a.context_id))
          (artifact_ownership a.artifact_id)
      if same_artifact current a then pure current else put_artifact a)
  ])
