-- ===== src/Ledger/Prepares.antt =====
-- vermay/main_agent/invocation_ledger.py: what `prepare` may do to the invocations.
use vermay_agent.Prelude.{
  sym, String, Bool, true, false, not, truthy, is_some, ◌||◌, Option, none, some, if◌then◌else◌,
}
use mathlib.Core.Path.{subst}
use vermay_agent.Exec.{mapped_state, Exec}
use vermay_agent.Store.{Store, TaskRecord, ToolInvocationRecord}
use vermay_agent.Store.Invocations.{create_or_get_tool_invocation}
use vermay_agent.Store.Invocations.Machine.{Advances, Advances-refl}
use vermay_agent.Store.Invocations.Create.{create-Advances}
use vermay_agent.Ledger.{
  ToolCall, prepare, prepare_for, prepare_after, prepare_new, prior_effect, new_invocation,
  is_blocking, get_task_by_runtime_thread_id,
}

Advances-if :
    {A : Type 0} (b : Bool) (m n : Exec Store A) (s : Store)
    → Advances s (m s).1
    → Advances s (n s).1
    → Advances s ((if b then m else n) s).1
Advances-if true m n s first second = first
Advances-if false m n s first second = second

prepare_new-Advances :
    (task : TaskRecord) (call : ToolCall) (id : String) (s : Store)
    → Advances s (prepare_new task call id s).1
unfolding prepare_new
prepare_new-Advances task call id s =
    subst (Advances s)
      (sym (mapped_state _ (create_or_get_tool_invocation (new_invocation task call id) s)))
      (create-Advances (new_invocation task call id) s)

prepare_after-Advances :
    (task : TaskRecord) (call : ToolCall) (id : String) (prior : Option ToolInvocationRecord)
    (s : Store)
    → Advances s (prepare_after task call id prior s).1
unfolding prepare_after
prepare_after-Advances task call id none s = prepare_new-Advances task call id s
prepare_after-Advances task call id (some prior) s =
    Advances-if (is_blocking prior.status) _ _ s (Advances-refl s)
      (prepare_new-Advances task call id s)

prepare_for-Advances :
    (task : Option TaskRecord) (call : ToolCall) (ids : TaskRecord → String) (s : Store)
    → Advances s (prepare_for task call ids s).1
unfolding prepare_for
prepare_for-Advances none call ids s = Advances-refl s
prepare_for-Advances (some task) call ids s =
    Advances-if (is_some task.assigned_agent_id || call.read_only || not (truthy call.tool_name)) _
      _ s (Advances-refl s)
      (prepare_after-Advances task call (ids task) (prior_effect task call (ids task) s) s)

pub prepare-Advances :
    (call : ToolCall) (ids : TaskRecord → String) (s : Store) → Advances s (prepare call ids s).1
unfolding prepare
prepare-Advances call ids s =
    Advances-if (not (truthy call.runtime_thread_id)) _ _ s (Advances-refl s)
      (prepare_for-Advances (get_task_by_runtime_thread_id call.runtime_thread_id s) call ids s)
