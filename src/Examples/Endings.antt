-- ===== src/Examples/Endings.antt =====
-- The recorders of outcomes on concrete stores.
use vermay_agent.Prelude.{◌∷◌, [], ◌≡◌, refl, true, some, none, []}
use vermay_agent.Prelude.Table.{lookup, insert, update}
use vermay_agent.Exec.{ok, unknown_context}
use vermay_agent.Lifecycle.{
  running, completed, canceled, failed, cancel_requested, validate_local_task_transition,
  lifecycle_event_type_for_status,
}
use vermay_agent.Store.{Store, TaskRecord}
use vermay_agent.Store.Tasks.{
  find_task, get_task, update_task, append_task_event, insert_event, transition_local_task,
  apply_transition,
}
use vermay_agent.Store.Messages.{
  append_message, find_context, find_message, find_artifact, fresh_message, next_sequence,
  insert_message, upsert_artifact, put_artifact, write_artifact, set_task_output_message,
}
use vermay_agent.Store.Queue.{clear_pending_continuation, clear_queued_task_execution}
use vermay_agent.Outcomes.{
  record_failure, record_runtime_recovery_failure, local_process_status, task_result_observations,
}
use vermay_agent.Outcomes.Results.{
  record_local_result, record_accepted_result, record_completed_result, while_open, complete_task,
  persist_observations, write_observations, answer_message, publish_answer, close_completed,
}
use vermay_agent.Outcomes.Settles.{
  HasEnded, record_failure_settles, recovery_settles, late_result_cancels,
  record_local_result_atomic,
}
use vermay_agent.Outcomes.Completes.{IsCompleted, completed_result}
use vermay_agent.Outcomes.Endings.{
  result, failure, recovery, cancellation, after_endings, first_end_stays,
}
use vermay_agent.Examples.{task_of, four_tasks, answer, some_error}

record_failure_settles_example :
    (u : TaskRecord) × (after : Store) × (record_failure "task-2" some_error four_tasks
      ≡ (ok u, after))
    × HasEnded (task_of "task-2" running) failed u after
unfolding find_task lookup
record_failure_settles_example =
    record_failure_settles (task_of "task-2" running) some_error four_tasks refl refl refl

recovery_settles_example :
    (u : TaskRecord) × (after : Store) × (record_runtime_recovery_failure "task-2" "restart"
        "interrupted" four_tasks
      ≡ (ok u, after))
    × (u.error_retryable ≡ true)
    × HasEnded (task_of "task-2" running) failed u after
unfolding find_task lookup
recovery_settles_example =
    recovery_settles (task_of "task-2" running) "restart" "interrupted" four_tasks refl refl refl

late_result_cancels_example :
    (u : TaskRecord) × (after : Store) × (record_local_result "task-3" answer none "msg-2"
        some_error four_tasks
      ≡ (ok u, after))
    × HasEnded (task_of "task-3" cancel_requested) canceled u after
unfolding find_task lookup
late_result_cancels_example =
    late_result_cancels (task_of "task-3" cancel_requested) answer none "msg-2" some_error
      four_tasks refl refl refl

first_end_stays_example :
    (u : TaskRecord) × (after : Store) × (record_failure "task-2" some_error four_tasks
      ≡ (ok u, after))
    × HasEnded (task_of "task-2" running) failed u after
    × (after_endings "task-2"
          (result answer none "msg-2" some_error
            ∷ cancellation
            ∷ recovery "restart" "interrupted"
            ∷ failure some_error
            ∷ [])
          after
        ≡ after)
unfolding find_task lookup
first_end_stays_example =
    first_end_stays (task_of "task-2" running) some_error
      (result answer none "msg-2" some_error
        ∷ cancellation
        ∷ recovery "restart" "interrupted"
        ∷ failure some_error
        ∷ [])
      four_tasks refl refl refl

abbrev no_contexts : Store
no_contexts = record four_tasks { contexts = [] }

record_local_result_atomic_example :
    (record_local_result "task-2" answer none "msg-2" some_error no_contexts).1 ≡ no_contexts
unfolding record_local_result record_accepted_result record_completed_result while_open
    local_process_status complete_task persist_observations write_observations
    task_result_observations append_message answer_message find_context get_task find_task lookup
record_local_result_atomic_example =
    record_local_result_atomic "task-2" answer none "msg-2" some_error no_contexts
      (unknown_context "ctx") refl

abbrev answered : TaskRecord
answered = record (task_of "task-2" completed) {
  output_message_id = some "msg-2";
  lifecycle_revision = 3;
}

completed_result_example :
    IsCompleted "task-2" "msg-2" answered
      (record_local_result "task-2" answer none "msg-2" some_error four_tasks).1
unfolding record_local_result record_accepted_result record_completed_result while_open
    local_process_status complete_task persist_observations write_observations
    task_result_observations append_message answer_message find_context get_task find_task lookup
    find_message fresh_message next_sequence update insert_message insert publish_answer
    upsert_artifact find_artifact put_artifact write_artifact update_task append_task_event
    insert_event close_completed set_task_output_message transition_local_task
    validate_local_task_transition apply_transition lifecycle_event_type_for_status
    clear_pending_continuation clear_queued_task_execution
completed_result_example =
    completed_result (task_of "task-2" running) answered answer none "msg-2" some_error four_tasks
      (record_local_result "task-2" answer none "msg-2" some_error four_tasks).1 refl refl refl refl
