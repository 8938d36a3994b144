-- ===== src/Core/Wakes.antt =====
-- vermay/main_agent/core.py (`_start_committed_local_task`): a wake that raises after an accepted approval.
use vermay_agent.Prelude.{String, ◌≡◌, ◌∙◌, refl, Bool, true, Option, some}
use vermay_agent.Exec.{ok}
use vermay_agent.Lifecycle.{queued, failed}
use vermay_agent.Store.{Store, TaskRecord, ToolInvocationRecord, PendingContinuationRecord}
use vermay_agent.Store.Tasks.{no_failure}
use vermay_agent.Store.Tasks.Transition.{changed}
use vermay_agent.Store.Queue.{remove_pending}
use vermay_agent.Store.Invocations.{resolve_pending_tool_invocation_approval}
use vermay_agent.Outcomes.{ErrorInfo}
use vermay_agent.Outcomes.Settles.{HasEnded, record_failure_settles}
use vermay_agent.Core.Continuations.{
  WakeRun, after_wake, start_committed_local_task, resolve_approval,
}
use vermay_agent.Core.Resumes.{Waits, given, resolve_approval-claim}

-- The submitter refuses the run before it starts.
abbrev pub refuses : ErrorInfo → WakeRun
refuses info task_id s = (some info, s)

-- Under the conditions of an approval that is accepted, when the wake raises without a write,
-- `resolve_approval` still returns: the Task has failed, two revisions later than it was, it is the one
-- stored, and no queued command, continuation or open invocation of it is left.
pub resolve_approval-refused :
    (info : ErrorInfo) (t : TaskRecord) (r : PendingContinuationRecord) (approved : Bool)
    (reason : Option String) (bound : Option ToolInvocationRecord) (s u : Store)
    → Waits t r "approval_required" s
    → resolve_pending_tool_invocation_approval t.task_id r.input_request approved
        (given reason)
        (remove_pending t.task_id s)
      ≡ (ok bound, u)
    → (v : TaskRecord) × (after : Store) × (resolve_approval true
          (some (refuses info))
          t.task_id
          approved
          reason
          s
        ≡ (ok v, after))
      × HasEnded (changed queued no_failure t) failed v after
unfolding start_committed_local_task after_wake
resolve_approval-refused info t r approved reason bound s u waits resolves =
    let (accepted, later, answered, stored, gone, claims) =
      resolve_approval-claim (some (refuses info)) t r approved reason bound s u waits resolves in
    let (v, after, fails, ended) =
      record_failure_settles (changed queued no_failure t) info accepted stored waits.local refl in
    (v, after, answered ∙ fails, ended)
