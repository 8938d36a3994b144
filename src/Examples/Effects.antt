-- ===== src/Examples/Effects.antt =====
-- The ledger of tool invocations on concrete stores.
use vermay_agent.Prelude.{◌≡◌, refl, true, false, some, [], ◌∷◌, List}
use vermay_agent.Prelude.Table.{lookup}
use vermay_agent.Exec.{ok}
use vermay_agent.Json.{obj, field, entry, str, end}
use vermay_agent.Store.{canceled, Store, ToolInvocationRecord, running, uncertain}
use vermay_agent.Store.Invocations.{find_invocation, update_invocation, started, row_of, ended}
use vermay_agent.Store.Invocations.Runs.{InvocationCall, create, begin, complete, after_calls}
use vermay_agent.Lifecycle
use vermay_agent.Ledger.{
  ToolCall, ToolInvocationExecution, begin_execution, prepare, blocked_reference,
  get_task_by_runtime_thread_id, first_by_thread,
}
use vermay_agent.Ledger.Execution.{begin_execution_grants, begin_execution-settled, prepare_blocks}
use vermay_agent.Ledger.Redaction.{
  normalized_arguments, fields_keep_no_secret, normalized_arguments-keep_no_secret,
}
use vermay_agent.Examples.{task_of, four_tasks, delete_file, uncertain_ending, text_result}

abbrev fresh_row : ToolInvocationRecord
fresh_row = row_of delete_file

abbrev pub with_fresh : Store
with_fresh = record four_tasks { invocations = fresh_row ∷ [] }

begin_execution_grants_example :
    (e : ToolInvocationExecution) × (after : Store) × (begin_execution "inv-1" with_fresh
      ≡ (ok e, after))
    × (e.execute ≡ true)
    × (after ≡ update_invocation "inv-1" started with_fresh)
unfolding find_invocation lookup
begin_execution_grants_example = begin_execution_grants "inv-1" with_fresh fresh_row refl

abbrev running_row : ToolInvocationRecord
running_row = record fresh_row { status = running }

abbrev with_running : Store
with_running = record four_tasks { invocations = running_row ∷ [] }

abbrev lost_row : ToolInvocationRecord
lost_row = ended uncertain uncertain_ending running_row

abbrev with_lost : Store
with_lost = record four_tasks { invocations = lost_row ∷ [] }

abbrev retries : List InvocationCall
retries = create delete_file ∷ begin "inv-1" ∷ complete "inv-1" text_result ∷ []

begin_execution-settled_example :
    (e : ToolInvocationExecution) × (begin_execution "inv-1" (after_calls retries with_lost)
      ≡ (ok e, after_calls retries with_lost))
    × (e.execute ≡ false)
unfolding find_invocation lookup
begin_execution-settled_example =
    begin_execution-settled retries with_lost "inv-1" lost_row refl refl

abbrev pub same_call : ToolCall
same_call = record {
  runtime_thread_id = "thread";
  loop_index = 2;
  tool_name = "delete_file";
  tool_call_id = "call-2";
  normalized_arguments = entry "path" (str "a.txt");
  arguments_digest = "d1";
  capability = end;
  side_effect_level = "destructive";
  read_only = false;
  approval_required = false;
}

-- An earlier attempt that was cancelled, and the later one whose outcome was lost.
abbrev cancelled_row : ToolInvocationRecord
cancelled_row = record lost_row { invocation_id = "inv-0"; status = canceled }

abbrev runner_only : Store
runner_only = record with_lost {
  tasks = task_of "task-2" Lifecycle.running ∷ [];
  invocations = cancelled_row ∷ lost_row ∷ [];
}

prepare_blocks_example :
    prepare same_call (λ _. "inv-2") runner_only
    ≡ (ok (some (blocked_reference lost_row)), runner_only)
unfolding get_task_by_runtime_thread_id first_by_thread find_invocation lookup
prepare_blocks_example =
    prepare_blocks same_call (λ _. "inv-2") runner_only (task_of "task-2" Lifecycle.running)
      (cancelled_row ∷ []) [] lost_row refl refl refl refl refl refl refl refl refl

normalized_arguments-keep_no_secret_example :
    fields_keep_no_secret
      (λ key. key)
      (normalized_arguments
        (λ key. key)
        (obj (field "token" (str "t0p") (entry "user" (obj (entry "password" (str "pw")))))))
    ≡ true
normalized_arguments-keep_no_secret_example =
    normalized_arguments-keep_no_secret (λ key. key)
      (obj (field "token" (str "t0p") (entry "user" (obj (entry "password" (str "pw"))))))
