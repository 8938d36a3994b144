-- ===== src/Examples/Commands.antt =====
-- The commands of the core on concrete stores.
use vermay_agent.Prelude.{◌≡◌, refl, true, false, some, none}
use vermay_agent.Prelude.Table.{lookup}
use vermay_agent.Exec.{ok}
use vermay_agent.Lifecycle.{queued, running, canceled, cancel_requested}
use vermay_agent.Store.{Store, TaskRecord}
use vermay_agent.Store.Tasks.{find_task}
use vermay_agent.Outcomes.Results.{record_local_result}
use vermay_agent.Outcomes.Settles.{HasEnded}
use vermay_agent.Core.{
  commit_cancellation, reconcile_startup, StartupReconciliationOutcome, recovers, submitted,
}
use vermay_agent.Core.Cancels.{IsCanceled, cancel_settles, commit_cancellation-record_local_result}
use vermay_agent.Core.Recovery.{interrupted}
use vermay_agent.Core.Reconciles.{distinct, reconcile_startup_settles}
use vermay_agent.Examples.{task_of, four_tasks, one_command, answer, some_error}

cancel_settles_example :
    (u : TaskRecord) × (after : Store) × (commit_cancellation "task-1"
        (some "stop")
        false
        one_command
      ≡ (ok (record { task = u; active_runtime_thread_id = none }), after))
    × IsCanceled "task-1" u after
unfolding find_task lookup
cancel_settles_example =
    cancel_settles (task_of "task-1" queued) (some "stop") one_command refl refl refl refl

commit_cancellation-record_local_result_example :
    (asked u : TaskRecord) × (mid after : Store) × (commit_cancellation "task-2" none true
        four_tasks
      ≡ (ok (record { task = asked; active_runtime_thread_id = some "thread" }), mid))
    × (asked.status ≡ cancel_requested)
    × (record_local_result "task-2" answer none "msg-2" some_error mid ≡ (ok u, after))
    × HasEnded asked canceled u after
unfolding find_task lookup
commit_cancellation-record_local_result_example =
    commit_cancellation-record_local_result (task_of "task-2" running) none answer none "msg-2"
      some_error four_tasks refl refl refl

reconcile_startup_settles_example :
    (out : StartupReconciliationOutcome) × (after : Store) × (reconcile_startup
        (recovers (λ _. submitted))
        one_command
      ≡ (ok out, after))
    × (interrupted "task-2" after ≡ false)
unfolding distinct
reconcile_startup_settles_example =
    reconcile_startup_settles (recovers (λ _. submitted)) one_command "task-2" refl
