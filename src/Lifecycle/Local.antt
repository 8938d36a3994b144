-- ===== src/Lifecycle/Local.antt =====
-- The state machine of a locally owned Task (`validate_local_task_transition`).
use vermay_agent.Prelude.{◌≡◌, ◌↔◌, true, arith}
use vermay_agent.Exec.{ok, err, not_a_transition_target}
use vermay_agent.Lifecycle.{
  TaskStatus, created, running, cancel_requested, failed, is_terminal, status_eq,
  validate_local_task_transition, lifecycle_event_type_for_status,
}

pub status_eq_iff : (a b : TaskStatus) → (status_eq a b ≡ true) ↔ (a ≡ b)
status_eq_iff a b = ground arith

-- Changes that the validation accepts.
infix 40 ◌⟶◌
abbrev pub ◌⟶◌ : TaskStatus → TaskStatus → Type 0
a ⟶ b = validate_local_task_transition a b ≡ ok true

terminal_stays : (a b : TaskStatus) → is_terminal a ≡ true → ¬ (a ⟶ b)
unfolding validate_local_task_transition
terminal_stays a b t h = ground arith

-- Every status that is not terminal may fail.
only_terminal_stuck : (a : TaskStatus) → ¬ (a ⟶ failed) → is_terminal a ≡ true
unfolding validate_local_task_transition
only_terminal_stuck a h = ground arith

-- A status is terminal exactly when the validation accepts no change away from it.
pub is_terminal_iff : (a : TaskStatus) → (is_terminal a ≡ true) ↔ ((b : TaskStatus) → ¬ (a ⟶ b))
is_terminal_iff a = (λ t b. terminal_stays a b t, λ stuck. only_terminal_stuck a (stuck failed))

no_event_no_change :
    (a b : TaskStatus) → lifecycle_event_type_for_status b ≡ err not_a_transition_target → ¬ (a ⟶ b)
unfolding validate_local_task_transition lifecycle_event_type_for_status
no_event_no_change a b h k = ground arith

no_change_no_event :
    (b : TaskStatus)
    → ¬ (created ⟶ b)
    → ¬ (running ⟶ b)
    → ¬ (cancel_requested ⟶ b)
    → lifecycle_event_type_for_status b ≡ err not_a_transition_target
unfolding validate_local_task_transition lifecycle_event_type_for_status
no_change_no_event b h k l = ground arith

-- A status has no lifecycle event exactly when no accepted change leads to it, so recording an
-- accepted change never raises.
pub no_event_iff :
    (b : TaskStatus)
    → (lifecycle_event_type_for_status b ≡ err not_a_transition_target)
      ↔ ((a : TaskStatus) → ¬ (a ⟶ b))
no_event_iff b = (
  λ h a. no_event_no_change a b h,
  λ stuck. no_change_no_event b (stuck created) (stuck running) (stuck cancel_requested),
)
