-- ===== src/Ledger/Execution.antt =====
-- When a tool with side effects may run.
use vermay_agent.Prelude.{
  String, ◌==◌, ◌≡◌, ap, refl, Bool, true, false, ◌&&◌, ◌||◌, none, some, List, [], ◌∷◌, ◌++◌,
  select, Bool-cases, inl, inr, is_some, truthy, if◌then◌else◌, arith,
}
use vermay_agent.Exec.{ok}
use vermay_agent.Store.{Store, TaskRecord, ToolInvocationRecord, running}
use vermay_agent.Store.Invocations.{
  find_invocation, started, invocation_status_eq, is_settled, update_invocation, last_match,
  find_latest_tool_invocation_for_effect,
}
use vermay_agent.Store.Invocations.Effects.{can_begin, begin_of_known}
use vermay_agent.Store.Invocations.Runs.{InvocationCall, after_calls, settled_stays}
use vermay_agent.Ledger.{
  ToolCall, ToolInvocationExecution, blocked_reference, is_blocking, get_task_by_runtime_thread_id,
  prior_effect, prepare_for, prepare_after, prepare_new, prepare, verdict_of, begin_execution,
}

-- For an invocation that is in the ledger `begin_execution` always answers, and it grants the
-- execution exactly when the invocation is prepared and approved or needs no approval, which sets
-- it running, or when it runs already, which changes nothing.
pub begin_execution_grants :
    (id : String) (s : Store) (r : ToolInvocationRecord)
    → find_invocation id s ≡ some r
    → (e : ToolInvocationExecution) × (after : Store) × (begin_execution id s ≡ (ok e, after))
      × (e.execute ≡ (can_begin r || invocation_status_eq r.status running))
      × (after ≡ (if can_begin r then update_invocation id started s else s))
unfolding begin_execution
begin_execution_grants id s r h = (
  verdict_of id (if can_begin r then started r else r),
  if can_begin r then update_invocation id started s else s,
  ground (arith, begin_of_known id s r h),
  ground arith,
  refl,
)

settled_refused :
    (id : String) (u : ToolInvocationRecord)
    → is_settled u.status ≡ true
    → can_begin u || invocation_status_eq u.status running ≡ false
settled_refused id u h = ground arith

-- Once an invocation has succeeded, failed, been cancelled or become uncertain, no later
-- `begin_execution` grants its execution and none changes the store, whatever calls on the
-- ledger's invocations come between.
pub begin_execution-settled :
    (calls : List InvocationCall) (s : Store) (id : String) (r : ToolInvocationRecord)
    → find_invocation id s ≡ some r
    → is_settled r.status ≡ true
    → (e : ToolInvocationExecution) × (begin_execution id (after_calls calls s)
        ≡ (ok e, after_calls calls s))
      × (e.execute ≡ false)
begin_execution-settled calls s id r h settled =
    let (u, found, same, _, _, _) = settled_stays calls s id r h settled in
    let (e, after, answered, grant, kept) =
      begin_execution_grants id (after_calls calls s) u found in
    let still : is_settled u.status ≡ true = rw same settled in
    let no = settled_refused id u still in
    (e, ground (arith, answered, kept, no), ground (arith, grant, no))

-- An invocation of the same tool with the same arguments in the Task.
abbrev pub same_effect : TaskRecord → ToolCall → ToolInvocationRecord → Bool
same_effect task call r =
    r.task_id == task.task_id
    && r.tool_name == call.tool_name
    && r.arguments_digest == call.arguments_digest

last_match-none :
    (p : ToolInvocationRecord → Bool) (rows : List ToolInvocationRecord)
    → select p rows ≡ []
    → last_match p rows ≡ none
unfolding last_match
last_match-none p [] h = refl
last_match-none p (r ∷ rows) h = elim (Bool-cases (p r)) [
  | inl hit ↦ absurd (ground (arith, h, hit))
  | inr miss ↦ ground (arith, h, miss, last_match-none p rows)
]

last_match-append :
    (p : ToolInvocationRecord → Bool) (earlier later : List ToolInvocationRecord)
    (r : ToolInvocationRecord)
    → p r ≡ true
    → select p later ≡ []
    → last_match p (earlier ++ r ∷ later) ≡ some r
unfolding last_match
last_match-append p [] later r h none_later = ground (arith, h, last_match-none p later none_later)
last_match-append p (e ∷ earlier) later r h none_later =
    ground (arith, last_match-append p earlier later r h none_later)

prior_effect_found :
    (call : ToolCall) (id : String) (s : Store) (task : TaskRecord)
    (earlier later : List ToolInvocationRecord) (prior : ToolInvocationRecord)
    → find_invocation id s ≡ none
    → s.invocations ≡ earlier ++ prior ∷ later
    → same_effect task call prior ≡ true
    → select (same_effect task call) later ≡ []
    → prior_effect task call id s ≡ some prior
unfolding prior_effect find_latest_tool_invocation_for_effect
prior_effect_found call id s task earlier later prior new rows same latest = ground (
  arith,
  new,
  ap (last_match (same_effect task call)) rows,
  last_match-append (same_effect task call) earlier later prior same latest,
)

-- For a call with side effects of a local Task, under an id that the ledger does not hold, after an
-- invocation of the same tool with the same arguments in the Task and none such later: if that one
-- runs, has succeeded or is uncertain, `prepare` returns its blocked reference and writes nothing,
-- whatever older ones did; otherwise it goes on to create the invocation.
pub prepare_blocks :
    (call : ToolCall) (ids : TaskRecord → String) (s : Store) (task : TaskRecord)
    (earlier later : List ToolInvocationRecord) (prior : ToolInvocationRecord)
    → truthy call.runtime_thread_id ≡ true
    → get_task_by_runtime_thread_id call.runtime_thread_id s ≡ some task
    → is_some task.assigned_agent_id ≡ false
    → call.read_only ≡ false
    → truthy call.tool_name ≡ true
    → find_invocation (ids task) s ≡ none
    → s.invocations ≡ earlier ++ prior ∷ later
    → same_effect task call prior ≡ true
    → select (same_effect task call) later ≡ []
    → prepare call ids s ≡ (
        if is_blocking prior.status
        then (ok (some (blocked_reference prior)), s)
        else prepare_new task call (ids task) s)
unfolding prepare prepare_for prepare_after
prepare_blocks call ids s task earlier later prior thread found local writes named new rows same
      latest =
    let known =
      prior_effect_found call (ids task) s task earlier later prior new rows same latest in
    elim (Bool-cases (is_blocking prior.status)) [
      | inl blocks ↦ ground (arith, thread, found, local, writes, named, known, blocks)
      | inr open_ ↦ ground (arith, thread, found, local, writes, named, known, open_)
    ]
