-- ===== src/Examples/Lifecycles.antt =====
-- The transition tables and the Task transitions on concrete values.
use vermay_agent.Prelude.{◌≡◌, ◌⊎◌, ◌<◌, ◌↔◌, refl, true, none, [], ◌∷◌}
use vermay_agent.Prelude.Table.{lookup}
use vermay_agent.Exec.{ok, err, not_a_transition_target}
use vermay_agent.Lifecycle.{
  TaskStatus, created, queued, running, completed, failed, is_terminal,
  accepts_remote_proxy_snapshot, lifecycle_event_type_for_status, validate_local_task_transition,
}
use vermay_agent.Lifecycle.Local.{is_terminal_iff, no_event_iff, ◌⟶◌}
use vermay_agent.Lifecycle.Remote.{rank, snapshot_advances, follow, follow-terminal}
use vermay_agent.Store.Tasks.{find_task, transition_local_task, no_failure}
use vermay_agent.Store.Tasks.Transition.{transition_local_task_lem, changed, recorded}
use vermay_agent.Examples.{four_tasks, task_of}

is_terminal_iff_example : (is_terminal completed ≡ true) ↔ ((b : TaskStatus) → ¬ (completed ⟶ b))
is_terminal_iff_example = is_terminal_iff completed

no_event_iff_example :
    (lifecycle_event_type_for_status created ≡ err not_a_transition_target)
    ↔ ((a : TaskStatus) → ¬ (a ⟶ created))
no_event_iff_example = no_event_iff created

snapshot_advances_example : (running ≡ completed) ⊎ (rank running < rank completed)
unfolding accepts_remote_proxy_snapshot
snapshot_advances_example = snapshot_advances running completed refl

follow-terminal_example : follow failed (running ∷ completed ∷ []) ≡ failed
follow-terminal_example = follow-terminal failed (running ∷ completed ∷ []) refl

transition_local_task_lem_example :
    transition_local_task "task-1" running none no_failure four_tasks ≡ (
      ok (changed running no_failure (task_of "task-1" queued)),
      recorded running none no_failure (task_of "task-1" queued) four_tasks,
    )
unfolding find_task lookup validate_local_task_transition
transition_local_task_lem_example =
    transition_local_task_lem "task-1" running none no_failure four_tasks
