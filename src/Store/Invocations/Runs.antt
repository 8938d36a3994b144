-- ===== src/Store/Invocations/Runs.antt =====
-- Any sequence of operations on tool invocations, whoever calls them and in whatever order.
use vermay_agent.Prelude.{String, ◌≡◌, Bool, true, Option, some, List, [], ◌∷◌, arith}
use vermay_agent.Prelude.Table.{lookup}
use vermay_agent.Store.{Store, ToolInvocationRecord, ToolInvocationStatus, invocation_key}
use vermay_agent.Store.Invocations.{
  find_invocation, NewInvocation, create_or_get_tool_invocation, begin_tool_invocation, Binding,
  resolve_tool_invocation_approval, NewResult, complete_tool_invocation_success, Ending,
  mark_tool_invocation_uncertain, cancel_tool_invocation, cancel_prepared_tool_invocations,
  mark_running_tool_invocations_uncertain, is_settled,
}
use vermay_agent.Store.Invocations.Machine.{
  Advances, Advances-refl, Advances-trans, AllSound, IsSound, may_become,
}
use vermay_agent.Store.Invocations.Create.{
  create-Advances, cancel_all-Advances, all_running-Advances,
}
use vermay_agent.Store.Invocations.Complete.{complete-Advances}
use vermay_agent.Store.Invocations.Effects.{
  begin-Advances, resolve-Advances, uncertain-Advances, cancel-Advances,
}

pub data InvocationCall : Type 0 where
  create : NewInvocation → InvocationCall
  begin : String → InvocationCall
  resolve : Binding → Bool → Option String → InvocationCall
  complete : String → NewResult → InvocationCall
  mark_uncertain : String → Ending → InvocationCall
  cancel : String → String → InvocationCall
  cancel_prepared : String → String → InvocationCall
  mark_running_uncertain : String → Ending → InvocationCall

-- The store after a call, whether it returned or raised.
unfoldable pub after_call : InvocationCall → Store → Store
after_call (create n) s = (create_or_get_tool_invocation n s).1
after_call (begin id) s = (begin_tool_invocation id s).1
after_call (resolve b accept reason) s = (resolve_tool_invocation_approval b accept reason s).1
after_call (complete id result) s = (complete_tool_invocation_success id result s).1
after_call (mark_uncertain id e) s = (mark_tool_invocation_uncertain id e s).1
after_call (cancel id reason) s = (cancel_tool_invocation id reason s).1
after_call (cancel_prepared task reason) s = (cancel_prepared_tool_invocations task reason s).1
after_call (mark_running_uncertain task e) s = (mark_running_tool_invocations_uncertain task e s).1

unfoldable pub after_calls : List InvocationCall → Store → Store
after_calls [] s = s
after_calls (c ∷ calls) s = after_calls calls (after_call c s)

call-Advances : (c : InvocationCall) (s : Store) → Advances s (after_call c s)
unfolding after_call cancel_prepared_tool_invocations mark_running_tool_invocations_uncertain
call-Advances (create n) s = create-Advances n s
call-Advances (begin id) s = begin-Advances id s
call-Advances (resolve b accept reason) s = resolve-Advances b accept reason s
call-Advances (complete id result) s = complete-Advances id result s
call-Advances (mark_uncertain id e) s = uncertain-Advances id e s
call-Advances (cancel id reason) s = cancel-Advances id reason s
call-Advances (cancel_prepared task reason) s = cancel_all-Advances task reason s
call-Advances (mark_running_uncertain task e) s = all_running-Advances task e s

pub calls-Advances : (calls : List InvocationCall) (s : Store) → Advances s (after_calls calls s)
unfolding after_calls
calls-Advances [] s = Advances-refl s
calls-Advances (c ∷ calls) s =
    Advances-trans (call-Advances c s) (calls-Advances calls (after_call c s))

nothing_in :
    (rows : List ToolInvocationRecord) (j : String) (r : ToolInvocationRecord)
    → rows ≡ []
    → lookup invocation_key j rows ≡ some r
    → IsSound r
unfolding lookup
nothing_in [] j r empty h = cc
nothing_in (x ∷ rows) j r empty h = cc

nothing_found : (s : Store) → s.invocations ≡ [] → AllSound s
unfolding find_invocation
nothing_found s empty j r h = nothing_in s.invocations j r empty h

-- From an empty ledger, after any calls at all, an invocation that runs or has succeeded was approved
-- or needs no approval, a rejected one is cancelled, and one that has succeeded names its result.
pub ledger-IsSound :
    (calls : List InvocationCall) (s : Store) (id : String) (r : ToolInvocationRecord)
    → s.invocations ≡ []
    → find_invocation id (after_calls calls s) ≡ some r
    → IsSound r
ledger-IsSound calls s id r empty h = (calls-Advances calls s).sound (nothing_found s empty) id r h

settled_fixed : (a b : ToolInvocationStatus) → is_settled a ≡ true → may_become a b ≡ true → b ≡ a
settled_fixed a b h k = ground arith

-- An invocation that is succeeded, failed, uncertain or cancelled keeps that status through any calls,
-- and keeps the Task, the tool and the arguments that it was created for.
pub settled_stays :
    (calls : List InvocationCall) (s : Store) (id : String) (r : ToolInvocationRecord)
    → find_invocation id s ≡ some r
    → is_settled r.status ≡ true
    → (u : ToolInvocationRecord) × (find_invocation id (after_calls calls s) ≡ some u)
      × (u.status ≡ r.status)
      × (u.task_id ≡ r.task_id)
      × (u.tool_name ≡ r.tool_name)
      × (u.arguments_digest ≡ r.arguments_digest)
settled_stays calls s id r h settled =
    let (u, found, step) = (calls-Advances calls s).kept id r h in
    (
      u,
      found,
      settled_fixed r.status u.status settled step.status,
      step.same_task,
      step.same_tool,
      step.same_arguments,
    )
