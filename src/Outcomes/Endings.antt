-- ===== src/Outcomes/Endings.antt =====
-- vermay/main_agent/task_outcomes.py: what comes in for a Task after its first end.
use vermay_agent.Prelude.{
  String, ◌≡◌, sym, ap, refl, true, false, ◌∙◌, Option, some, is_some, List, [], ◌∷◌, if◌then◌else◌,
  arith,
}
use vermay_agent.Exec.{Exec, ok}
use vermay_agent.Json.{Fields}
use vermay_agent.Lifecycle.{canceled, failed, cancel_requested, is_terminal, status_eq}
use vermay_agent.Store.{Store, TaskRecord}
use vermay_agent.Store.Tasks.{find_task, get_task}
use vermay_agent.Outcomes.{
  LocalTaskRunResult, ErrorInfo, record_cancellation, record_failure,
  record_runtime_recovery_failure,
}
use vermay_agent.Outcomes.Results.{record_local_result}
use vermay_agent.Outcomes.Settles.{HasEnded, record_failure_settles}

-- A call of one of the recorders.
pub data Ending : Type 0 where
  result : LocalTaskRunResult → Option Fields → String → ErrorInfo → Ending
  failure : ErrorInfo → Ending
  recovery : String → String → Ending
  cancellation : Ending

abbrev pub record_ending : String → Ending → Exec Store TaskRecord
record_ending id (result r metadata message_id unsupported) =
    record_local_result id r metadata message_id unsupported
record_ending id (failure info) = record_failure id info
record_ending id (recovery code message) = record_runtime_recovery_failure id code message
record_ending id cancellation = record_cancellation id

-- The store after such calls, one after another, whatever they answer.
unfoldable pub after_endings : String → List Ending → Store → Store
after_endings id [] s = s
after_endings id (e ∷ endings) s = after_endings id endings (record_ending id e s).1

ended_unchanged :
    (t : TaskRecord) (e : Ending) (s : Store)
    → find_task t.task_id s ≡ some t
    → is_terminal t.status ≡ true
    → record_ending t.task_id e s ≡ (ok t, s)
unfolding record_local_result record_failure record_runtime_recovery_failure record_cancellation
    get_task
ended_unchanged t (result r metadata message_id unsupported) s h done = ground (arith, h, done)
ended_unchanged t (failure info) s h done = ground (arith, h, done)
ended_unchanged t (recovery code message) s h done = ground (arith, h, done)
ended_unchanged t cancellation s h done = ground (arith, h, done)

after_endings-ended :
    (t : TaskRecord) (endings : List Ending) (s : Store)
    → find_task t.task_id s ≡ some t
    → is_terminal t.status ≡ true
    → after_endings t.task_id endings s ≡ s
unfolding after_endings
after_endings-ended t [] s h done = refl
after_endings-ended t (e ∷ endings) s h done =
    ap (λ out. after_endings t.task_id endings out.1) (ended_unchanged t e s h done)
    ∙ after_endings-ended t endings s h done

-- When a failure of a local Task that has not ended is recorded, the Task ends, as cancelled if its
-- cancellation was requested and as failed otherwise, and whatever results, failures, recoveries and
-- cancellations are recorded for it afterwards, in any number and order, the store stays as it is.
pub first_end_stays :
    (t : TaskRecord) (info : ErrorInfo) (endings : List Ending) (s : Store)
    → find_task t.task_id s ≡ some t
    → is_some t.assigned_agent_id ≡ false
    → is_terminal t.status ≡ false
    → (u : TaskRecord) × (after : Store) × (record_failure t.task_id info s ≡ (ok u, after))
      × HasEnded t (if status_eq t.status cancel_requested then canceled else failed) u after
      × (after_endings t.task_id endings after ≡ after)
first_end_stays t info endings s h local live =
    let (u, after, fails, ended) = record_failure_settles t info s h local live in
    let done : is_terminal u.status ≡ true = rw ended.status (ground arith) in
    (
      u,
      after,
      fails,
      ended,
      ap (λ id. after_endings id endings after) (sym ended.same_task)
          ∙ after_endings-ended u endings after
              (ap (λ id. find_task id after) ended.same_task ∙ ended.stored) done,
    )
