-- ===== src/Store/Messages/Frames.antt =====
-- What `upsert_artifact` and `append_task_event` leave alone.
use vermay_agent.Prelude.{String, ◌≡◌, Option, some, arith}
use vermay_agent.Prelude.Table.{key-lookup}
use vermay_agent.Exec.{ok}
use vermay_agent.Json.{Fields}
use vermay_agent.Lifecycle.{TaskStatus}
use vermay_agent.Store.{Store, ArtifactRecord}
use vermay_agent.Store.Tasks.{get_task, insert_event, update_task, append_task_event}
use vermay_agent.Store.Messages.{
  artifact_key, find_artifact, write_artifact, put_artifact, upsert_artifact,
}

-- The tables that neither of the two writes.
pub record SameWork (s t : Store) : Type 0 where
  pub invocations : t.invocations ≡ s.invocations
  pub pending : t.pending ≡ s.pending
  pub queued : t.queued ≡ s.queued

pub SameWork-trans : {s t u : Store} → SameWork s t → SameWork t u → SameWork s u
SameWork-trans p q = record { invocations = cc; pending = cc; queued = cc }

pub append_task_event-SameWork :
    (task_id type : String) (status : Option TaskStatus) (payload : Option Fields) (s : Store)
    → SameWork s (append_task_event task_id type status payload s).1
unfolding append_task_event get_task insert_event
append_task_event-SameWork task_id type status payload s = ground arith

put_artifact-SameWork : (a : ArtifactRecord) (s : Store) → SameWork s (put_artifact a s).1
unfolding put_artifact write_artifact update_task
put_artifact-SameWork a s = ground arith

pub upsert_artifact-SameWork : (a : ArtifactRecord) (s : Store) → SameWork s (upsert_artifact a s).1
unfolding upsert_artifact get_task
upsert_artifact-SameWork a s = ground (arith, put_artifact-SameWork a s)

find_artifact_id :
    (k : String) (s : Store) (b : ArtifactRecord) → find_artifact k s ≡ some b → b.artifact_id ≡ k
unfolding find_artifact
find_artifact_id k s b h = key-lookup artifact_key k s.artifacts b h

put_artifact_id :
    (a b : ArtifactRecord) (s : Store) → (put_artifact a s).0 ≡ ok b → b.artifact_id ≡ a.artifact_id
unfolding put_artifact
put_artifact_id a b s h = find_artifact_id a.artifact_id (write_artifact a s) b (ground arith)

-- The record that `upsert_artifact` returns has the id that it was called with.
pub upsert_artifact_id :
    (a b : ArtifactRecord) (s : Store)
    → (upsert_artifact a s).0 ≡ ok b
    → b.artifact_id ≡ a.artifact_id
unfolding upsert_artifact get_task
upsert_artifact_id a b s h =
    ground (arith, put_artifact_id a b s, find_artifact_id a.artifact_id s b)
