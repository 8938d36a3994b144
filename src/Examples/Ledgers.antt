-- ===== src/Examples/Ledgers.antt =====
-- Tool invocations on concrete stores.
use vermay_agent.Prelude.{◌≡◌, refl, some, [], ◌∷◌, List}
use vermay_agent.Prelude.Table.{lookup, insert, update}
use vermay_agent.Exec.{ok}
use vermay_agent.Store.{Store, ToolInvocationRecord, uncertain}
use vermay_agent.Store.Tasks.{get_task, find_task}
use vermay_agent.Store.Invocations.{
  find_invocation, row_of, insert_invocation, update_invocation, known_invocation,
  rewrite_invocation, first_match, create_invocation, create_or_get_tool_invocation,
  begin_tool_invocation, mark_tool_invocation_uncertain, started, ended,
}
use vermay_agent.Store.Invocations.Machine.{IsSound}
use vermay_agent.Store.Invocations.Create.{create_again}
use vermay_agent.Store.Invocations.Runs.{
  InvocationCall, create, begin, complete, mark_uncertain, cancel, after_call, after_calls,
  ledger-IsSound, settled_stays,
}
use vermay_agent.Examples.{four_tasks, delete_file, uncertain_ending, text_result}

abbrev created_row : ToolInvocationRecord
created_row = row_of delete_file

create_again_example :
    create_or_get_tool_invocation delete_file
      (create_or_get_tool_invocation delete_file four_tasks).1
    ≡ (ok created_row, (create_or_get_tool_invocation delete_file four_tasks).1)
unfolding create_or_get_tool_invocation get_task find_task lookup find_invocation create_invocation
    first_match insert_invocation insert known_invocation
create_again_example = create_again delete_file four_tasks created_row refl

abbrev first_calls : List InvocationCall
first_calls = create delete_file ∷ begin "inv-1" ∷ mark_uncertain "inv-1" uncertain_ending ∷ []

abbrev lost_row : ToolInvocationRecord
lost_row = ended uncertain uncertain_ending (started created_row)

abbrev lost : Store
lost = record four_tasks { invocations = lost_row ∷ [] }

ledger-IsSound_example : IsSound lost_row
unfolding after_calls after_call create_or_get_tool_invocation get_task find_task lookup
    find_invocation create_invocation first_match insert_invocation insert known_invocation
    begin_tool_invocation rewrite_invocation update_invocation update mark_tool_invocation_uncertain
ledger-IsSound_example = ledger-IsSound first_calls four_tasks "inv-1" lost_row refl refl

-- What is retried after the outcome was lost.
abbrev late_calls : List InvocationCall
late_calls =
    create delete_file
    ∷ begin "inv-1"
    ∷ complete "inv-1" text_result
    ∷ cancel "inv-1" "too late"
    ∷ []

settled_stays_example :
    (u : ToolInvocationRecord) × (find_invocation "inv-1" (after_calls late_calls lost) ≡ some u)
    × (u.status ≡ uncertain)
    × (u.task_id ≡ "task-2")
    × (u.tool_name ≡ "delete_file")
    × (u.arguments_digest ≡ "d1")
unfolding find_invocation lookup
settled_stays_example = settled_stays late_calls lost "inv-1" lost_row refl refl
