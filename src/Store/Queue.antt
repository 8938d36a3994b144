-- ===== src/Store/Queue.antt =====
-- `MainAgentStore`: pending continuations and queued executions.
pub mod Claim
pub mod Enqueue
pub mod Pending
use vermay_agent.Prelude.{
  ℕ, String, ◌==◌, Bool, true, false, ◌&&◌, ◌||◌, Option, none, some, is_some, not, truthy, nat_eq,
  if◌then◌else◌,
}
use vermay_agent.Prelude.Table.{lookup, update, insert, remove}
use vermay_agent.Exec.{
  Result, ok, err, Exec, pure, raise, gets, lift, require, transaction, modify, raise_if, ◌>>=◌,
  ◌>>◌, unknown_task, continuation_kind_required, no_pending, wrong_pending, remote_proxy_queue,
  not_queued, thread_mismatch, queued_thread_mismatch, already_queued, payload_required,
  unsupported_command_version,
}
use vermay_agent.Json.{Fields}
use vermay_agent.Lifecycle.{TaskStatus, queued, running, status_eq}
use vermay_agent.Command.{
  CommandKind, initial, kind_eq, Payload, start, Payload-discrete, payload_to_dict,
  payload_from_dict, local_execution_command_version,
}
use vermay_agent.Store.{
  Store, TaskRecord, PendingContinuationRecord, QueuedRow, pending_key, queued_key,
}
use vermay_agent.Store.Tasks.{get_task, transition_local_task, no_failure}

unfoldable pub find_pending : String → Store → Option PendingContinuationRecord
find_pending task_id s = lookup pending_key task_id s.pending

unfoldable pub find_queued : String → Store → Option QueuedRow
find_queued task_id s = lookup queued_key task_id s.queued

-- INSERT ... ON CONFLICT(task_id) DO UPDATE
unfoldable pub write_pending : PendingContinuationRecord → Store → Store
write_pending r s = record s {
  pending =
      if is_some (find_pending r.task_id s)
      then update pending_key r.task_id
          (λ old. record old { kind = r.kind; input_request = r.input_request }) s.pending
      else insert pending_key r s.pending;
}

unfoldable pub set_pending_continuation : PendingContinuationRecord → Exec Store Unit
set_pending_continuation r = do
  task ← get_task r.task_id
  raise_if (not (is_some task)) (unknown_task r.task_id)
  raise_if (not (truthy r.kind)) (continuation_kind_required r.task_id)
  modify (write_pending r)

unfoldable pub remove_pending : String → Store → Store
remove_pending task_id s = record s { pending = remove pending_key task_id s.pending }

unfoldable pub clear_pending_continuation : String → Exec Store Unit
clear_pending_continuation task_id = modify (remove_pending task_id)

-- The DELETE names the key and the kind of the row just read, so it deletes that one row.
unfoldable pub consume_pending_continuation : String → String → Exec Store PendingContinuationRecord
consume_pending_continuation task_id expected_kind = do
  found ← gets (find_pending task_id)
  pending ← require found (no_pending expected_kind task_id)
  raise_if (not (pending.kind == expected_kind)) (wrong_pending expected_kind task_id)
  modify (remove_pending task_id)
  pure pending

-- `QueuedTaskExecutionRecord`: a row with its payload decoded.
pub record QueuedTaskExecutionRecord : Type 0 where
  pub task_id : String
  pub kind : CommandKind
  pub runtime_thread_id : String
  pub command_version : ℕ
  pub payload : Payload

-- `_queued_task_execution_from_row`
unfoldable pub queued_from_row : QueuedRow → Result QueuedTaskExecutionRecord
queued_from_row row = elim (payload_from_dict row.kind row.command_version row.payload) [
  | err e ↦ err e
  | ok payload ↦ ok (record {
    task_id = row.task_id;
    kind = row.kind;
    runtime_thread_id = row.runtime_thread_id;
    command_version = row.command_version;
    payload = payload;
  })
]

unfoldable pub decode_queued : Option QueuedRow → Result (Option QueuedTaskExecutionRecord)
decode_queued none = ok none
decode_queued (some row) = elim (queued_from_row row) [ err e ↦ err e | ok r ↦ ok (some r) ]

unfoldable pub get_queued_task_execution : String → Exec Store (Option QueuedTaskExecutionRecord)
get_queued_task_execution task_id s = (decode_queued (find_queued task_id s), s)

unfoldable pub insert_queued : QueuedRow → Store → Store
insert_queued row s = record s { queued = insert queued_key row s.queued }

unfoldable pub remove_queued : String → Store → Store
remove_queued task_id s = record s { queued = remove queued_key task_id s.queued }

unfoldable pub clear_queued_task_execution : String → Exec Store Unit
clear_queued_task_execution task_id = modify (remove_queued task_id)

-- `payload` if it is given; without one only an initial command is complete.
unfoldable pub normalized_payload : String → CommandKind → Option Payload → Result Payload
normalized_payload task_id kind (some payload) = ok payload
normalized_payload task_id kind none =
    if kind_eq kind initial then ok start else err (payload_required task_id)

abbrev pub payload_eq : Payload → Payload → Bool
payload_eq a b = elim (Payload-discrete a b) [ yes _ ↦ true | no _ ↦ false ]

abbrev pub same_command : QueuedTaskExecutionRecord → QueuedTaskExecutionRecord → Bool
same_command a b =
    kind_eq a.kind b.kind
    && a.runtime_thread_id == b.runtime_thread_id
    && nat_eq a.command_version b.command_version
    && payload_eq a.payload b.payload

-- The `INSERT` of `enqueue_task_execution`, read back; or the same command that is there already.
unfoldable pub put_queued :
    QueuedTaskExecutionRecord
    → Fields
    → Option QueuedTaskExecutionRecord
    → Exec Store QueuedTaskExecutionRecord
put_queued r written (some existing) =
    if same_command existing r then pure existing else raise (already_queued r.task_id)
put_queued r written none = do
  modify (
      insert_queued (record {
        task_id = r.task_id;
        kind = r.kind;
        runtime_thread_id = r.runtime_thread_id;
        command_version = r.command_version;
        payload = written;
      }))
  found ← get_queued_task_execution r.task_id
  require found (unknown_task r.task_id)

unfoldable pub enqueue_task_execution :
    String → CommandKind → String → Option Payload → ℕ → Exec Store QueuedTaskExecutionRecord
enqueue_task_execution task_id kind runtime_thread_id payload command_version = do
  found ← get_task task_id
  task ← require found (unknown_task task_id)
  raise_if (is_some task.assigned_agent_id) (remote_proxy_queue task_id)
  raise_if (not (status_eq task.status queued)) (not_queued task_id)
  raise_if (not (task.runtime_thread_id == runtime_thread_id)) (thread_mismatch task_id)
  raise_if (not (nat_eq command_version local_execution_command_version))
      unsupported_command_version
  normalized ← lift (normalized_payload task_id kind payload)
  written ← lift (payload_to_dict kind normalized)
  existing ← get_queued_task_execution task_id
  put_queued
      (record {
        task_id = task_id;
        kind = kind;
        runtime_thread_id = runtime_thread_id;
        command_version = command_version;
        payload = normalized;
      })
      written existing

-- The DELETE names the key of the row just read, so it deletes that one row.
unfoldable pub claim_found :
    TaskRecord
    → Option QueuedTaskExecutionRecord
    → Exec Store (Option (TaskRecord × QueuedTaskExecutionRecord))
claim_found task none = pure none
claim_found task (some command) = do
  raise_if (not (command.runtime_thread_id == task.runtime_thread_id))
      (queued_thread_mismatch task.task_id)
  modify (remove_queued task.task_id)
  claimed ← transition_local_task task.task_id running none no_failure
  pure (some (claimed, command))

unfoldable pub claim_queued_task_execution :
    String → Exec Store (Option (TaskRecord × QueuedTaskExecutionRecord))
claim_queued_task_execution task_id = transaction (do
  found ← get_task task_id
  task ← require found (unknown_task task_id)
  if is_some task.assigned_agent_id || not (status_eq task.status queued)
      then pure none
      else (do command ← get_queued_task_execution task_id; claim_found task command))
