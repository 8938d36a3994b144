-- ===== src/Lifecycle.antt =====
-- vermay/main_agent/lifecycle.py: the statuses of a Task, the two transition tables, and the event
-- that records a transition.
pub mod Local
pub mod Remote
use vermay_agent.Prelude.{String, Bool, true, false, not, if◌then◌else◌}
use vermay_agent.Exec.{Result, ok, err, invalid_local_task_transition, not_a_transition_target}

pub data TaskStatus : Type 0 where
  created queued running cancel_requested : TaskStatus
  input_required auth_required : TaskStatus
  completed canceled failed : TaskStatus

-- `==` on statuses.
abbrev pub status_eq : TaskStatus → TaskStatus → Bool
status_eq created created = true
status_eq queued queued = true
status_eq running running = true
status_eq cancel_requested cancel_requested = true
status_eq input_required input_required = true
status_eq auth_required auth_required = true
status_eq completed completed = true
status_eq canceled canceled = true
status_eq failed failed = true
status_eq _ _ = false

-- `is_terminal_task_status`
abbrev pub is_terminal : TaskStatus → Bool
is_terminal completed = true
is_terminal canceled = true
is_terminal failed = true
is_terminal _ = false

-- `target in LOCAL_TASK_TRANSITIONS[current]`
unfoldable pub local_task_transitions : TaskStatus → TaskStatus → Bool
local_task_transitions created queued = true
local_task_transitions created running = true
local_task_transitions created canceled = true
local_task_transitions created failed = true
local_task_transitions queued running = true
local_task_transitions queued canceled = true
local_task_transitions queued failed = true
local_task_transitions running input_required = true
local_task_transitions running auth_required = true
local_task_transitions running cancel_requested = true
local_task_transitions running completed = true
local_task_transitions running failed = true
local_task_transitions cancel_requested canceled = true
local_task_transitions cancel_requested failed = true
local_task_transitions input_required queued = true
local_task_transitions input_required canceled = true
local_task_transitions input_required failed = true
local_task_transitions auth_required queued = true
local_task_transitions auth_required canceled = true
local_task_transitions auth_required failed = true
local_task_transitions _ _ = false

-- `target in REMOTE_PROXY_SNAPSHOT_TRANSITIONS[current]`
unfoldable pub remote_proxy_snapshot_transitions : TaskStatus → TaskStatus → Bool
remote_proxy_snapshot_transitions created queued = true
remote_proxy_snapshot_transitions created running = true
remote_proxy_snapshot_transitions created input_required = true
remote_proxy_snapshot_transitions created auth_required = true
remote_proxy_snapshot_transitions created completed = true
remote_proxy_snapshot_transitions created canceled = true
remote_proxy_snapshot_transitions created failed = true
remote_proxy_snapshot_transitions queued running = true
remote_proxy_snapshot_transitions queued input_required = true
remote_proxy_snapshot_transitions queued auth_required = true
remote_proxy_snapshot_transitions queued completed = true
remote_proxy_snapshot_transitions queued canceled = true
remote_proxy_snapshot_transitions queued failed = true
remote_proxy_snapshot_transitions running input_required = true
remote_proxy_snapshot_transitions running auth_required = true
remote_proxy_snapshot_transitions running completed = true
remote_proxy_snapshot_transitions running canceled = true
remote_proxy_snapshot_transitions running failed = true
remote_proxy_snapshot_transitions input_required completed = true
remote_proxy_snapshot_transitions input_required canceled = true
remote_proxy_snapshot_transitions input_required failed = true
remote_proxy_snapshot_transitions auth_required completed = true
remote_proxy_snapshot_transitions auth_required canceled = true
remote_proxy_snapshot_transitions auth_required failed = true
remote_proxy_snapshot_transitions cancel_requested canceled = true
remote_proxy_snapshot_transitions cancel_requested failed = true
remote_proxy_snapshot_transitions _ _ = false

unfoldable pub validate_local_task_transition : TaskStatus → TaskStatus → Result Bool
unfolding local_task_transitions
validate_local_task_transition current target =
    if status_eq current target
    then ok false
    else if not (local_task_transitions current target)
    then err invalid_local_task_transition
    else ok true

unfoldable pub accepts_remote_proxy_snapshot : TaskStatus → TaskStatus → Bool
unfolding remote_proxy_snapshot_transitions
accepts_remote_proxy_snapshot current target =
    if status_eq current target then true else remote_proxy_snapshot_transitions current target

unfoldable pub lifecycle_event_type_for_status : TaskStatus → Result String
lifecycle_event_type_for_status queued = ok "task_queued"
lifecycle_event_type_for_status running = ok "task_started"
lifecycle_event_type_for_status input_required = ok "task_interrupted"
lifecycle_event_type_for_status auth_required = ok "task_interrupted"
lifecycle_event_type_for_status cancel_requested = ok "task_cancel_requested"
lifecycle_event_type_for_status completed = ok "task_completed"
lifecycle_event_type_for_status canceled = ok "task_cancelled"
lifecycle_event_type_for_status failed = ok "task_failed"
lifecycle_event_type_for_status created = err not_a_transition_target
