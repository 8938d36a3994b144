-- ===== src/Store/Tasks.antt =====
-- `MainAgentStore`: Tasks and their events.
pub mod Transition
use vermay_agent.Prelude.{
  ℕ, ◌+◌, String, ◌==◌, Bool, false, ◌&&◌, Option, none, some, List, [], ◌∷◌, ◌++◌, is_some, opt_eq,
  bool_eq, if◌then◌else◌, select, ltb,
}
use vermay_agent.Prelude.Table.{lookup, update, insert}
use vermay_agent.Exec.{
  Exec, pure, raise, gets, lift, require, transaction, modify, raise_if, ◌>>=◌, ◌>>◌, unknown_task,
  remote_proxy_local_transition,
}
use vermay_agent.Json.{Fields, end}
use vermay_agent.Lifecycle.{
  TaskStatus, status_eq, validate_local_task_transition, lifecycle_event_type_for_status,
}
use vermay_agent.Store.{Store, TaskRecord, TaskEventRecord, task_key}

unfoldable pub find_task : String → Store → Option TaskRecord
find_task task_id s = lookup task_key task_id s.tasks

unfoldable pub get_task : String → Exec Store (Option TaskRecord)
get_task task_id = gets (find_task task_id)

-- `payload or {}`
abbrev pub or_empty : Option Fields → Fields
or_empty none = end
or_empty (some fields) = fields

-- The `INSERT` of `append_task_event`, with AUTOINCREMENT for the id. The notification of subscribers
-- after the commit, which writes nothing, is left out.
unfoldable pub insert_event : String → String → Option TaskStatus → ℕ → Fields → Store → Store
insert_event task_id type status revision payload s = record s {
  events =
      s.events
      ++ (record {
        event_id = s.next_event_id;
        task_id = task_id;
        type = type;
        status = status;
        lifecycle_revision = revision;
        payload = payload;
      })
        ∷ [];
  next_event_id = s.next_event_id + 1;
}

unfoldable pub append_task_event :
    String → String → Option TaskStatus → Option Fields → Exec Store Unit
append_task_event task_id type status payload = do
  found ← get_task task_id
  task ← require found (unknown_task task_id)
  modify (insert_event task_id type status task.lifecycle_revision (or_empty payload))

-- `SET status=?, error_code=?, error_message=?, error_retryable=?, lifecycle_revision=... + 1`
abbrev pub set_status : TaskStatus → Option String → Option String → Bool → TaskRecord → TaskRecord
set_status status code message retryable t = record t {
  status = status;
  error_code = code;
  error_message = message;
  error_retryable = retryable;
  lifecycle_revision = t.lifecycle_revision + 1;
}

unfoldable pub update_task : String → (TaskRecord → TaskRecord) → Store → Store
update_task task_id f s = record s { tasks = update task_key task_id f s.tasks }

-- The error columns that a transition writes.
pub record Failure : Type 0 where
  pub code : Option String
  pub message : Option String
  pub retryable : Bool

abbrev pub no_failure : Failure
no_failure = record { code = none; message = none; retryable = false }

-- The part of `transition_local_task` behind the validation.
unfoldable pub apply_transition :
    TaskRecord → TaskStatus → Option Fields → Failure → Exec Store TaskRecord
apply_transition task target payload failure = do
  event_type ← lift (lifecycle_event_type_for_status target)
  modify
      (update_task task.task_id (set_status target failure.code failure.message failure.retryable))
  found ← get_task task.task_id
  updated ← require found (unknown_task task.task_id)
  append_task_event task.task_id event_type (some target) payload
  pure updated

unfoldable pub transition_local_task :
    String → TaskStatus → Option Fields → Failure → Exec Store TaskRecord
transition_local_task task_id target payload failure = transaction (do
  found ← get_task task_id
  task ← require found (unknown_task task_id)
  raise_if (is_some task.assigned_agent_id) (remote_proxy_local_transition task_id)
  changes ← lift (validate_local_task_transition task.status target)
  if changes then apply_transition task target payload failure else pure task)

abbrev pub same_status : TaskStatus → Failure → TaskRecord → Bool
same_status status failure t =
    status_eq t.status status
    && opt_eq t.error_code failure.code
    && opt_eq t.error_message failure.message
    && bool_eq t.error_retryable failure.retryable

-- The raw update for remote proxies.
unfoldable pub update_task_status : String → TaskStatus → Failure → Exec Store TaskRecord
update_task_status task_id status failure = transaction (do
  found ← get_task task_id
  current ← require found (unknown_task task_id)
  if same_status status failure current then pure current else (do
    modify (update_task task_id (set_status status failure.code failure.message failure.retryable))
    found ← get_task task_id
    require found (unknown_task task_id)))

-- `list_task_events`
unfoldable pub list_task_events : String → ℕ → Store → List TaskEventRecord
list_task_events task_id after s =
    select (λ e. e.task_id == task_id && ltb after e.event_id) s.events
