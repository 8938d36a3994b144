-- ===== src/Store/Invocations.antt =====
-- `MainAgentStore`: the durable tool invocations. Rows stand in the order of their creation, which
-- is the order by `created_at`.
pub mod Machine
pub mod Effects
pub mod Runs
pub mod Approvals
pub mod Create
pub mod Complete
use Prim.Native.String.{◌++◌ as text_append}
use vermay_agent.Prelude.{
  ℕ, String, ◌==◌, Bool, true, false, ◌&&◌, ◌||◌, Option, none, some, List, [], ◌∷◌, map, is_some,
  not, truthy, nat_eq, ltb, if◌then◌else◌,
}
use vermay_agent.Prelude.Table.{lookup, update, insert, or_else}
use vermay_agent.Exec.{
  Error, Exec, pure, raise, gets, require, transaction, modify, raise_if, ◌>>=◌, ◌>>◌, unknown_task,
  unknown_tool_invocation, invocation_loop_index, invocation_identity_required,
  invocation_context_mismatch, invocation_thread_mismatch, invocation_remote_proxy,
  invocation_identity_conflict, approval_mismatch, approval_not_required, approval_resolved,
  invocation_not_awaiting, invocation_not_running, approval_binding_invalid,
}
use vermay_agent.Json.{Json, str, Fields, field, entry, get}
use vermay_agent.Store.{
  Store, ToolInvocationRecord, ToolInvocationStatus, prepared, running, succeeded, failed,
  uncertain, canceled, ToolInvocationApprovalStatus, not_required, pending, approved, rejected,
  invocation_key,
}
use vermay_agent.Store.Tasks.{get_task, append_task_event}
use vermay_agent.Store.Messages.{upsert_artifact}

abbrev pub invocation_status_eq : ToolInvocationStatus → ToolInvocationStatus → Bool
invocation_status_eq prepared prepared = true
invocation_status_eq running running = true
invocation_status_eq succeeded succeeded = true
invocation_status_eq failed failed = true
invocation_status_eq uncertain uncertain = true
invocation_status_eq canceled canceled = true
invocation_status_eq _ _ = false

abbrev pub approval_eq : ToolInvocationApprovalStatus → ToolInvocationApprovalStatus → Bool
approval_eq not_required not_required = true
approval_eq pending pending = true
approval_eq approved approved = true
approval_eq rejected rejected = true
approval_eq _ _ = false

unfoldable pub find_invocation : String → Store → Option ToolInvocationRecord
find_invocation invocation_id s = lookup invocation_key invocation_id s.invocations

unfoldable pub update_invocation :
    String → (ToolInvocationRecord → ToolInvocationRecord) → Store → Store
update_invocation invocation_id f s = record s {
  invocations = update invocation_key invocation_id f s.invocations;
}

-- `record = self.get_tool_invocation(...)`, with the `raise` for `None`
unfoldable pub known_invocation : String → Exec Store ToolInvocationRecord
known_invocation invocation_id = do
  found ← gets (find_invocation invocation_id)
  require found (unknown_tool_invocation invocation_id)

-- An UPDATE of one invocation, and the row read back.
unfoldable pub rewrite_invocation :
    String → (ToolInvocationRecord → ToolInvocationRecord) → Exec Store ToolInvocationRecord
rewrite_invocation invocation_id f = do
  modify (update_invocation invocation_id f)
  known_invocation invocation_id

-- What a caller hands to `create_or_get_tool_invocation`.
pub record NewInvocation : Type 0 where
  pub invocation_id : String
  pub task_id : String
  pub context_id : String
  pub runtime_thread_id : String
  pub loop_index : ℕ
  pub tool_call_id : String
  pub tool_name : String
  pub normalized_arguments : Fields
  pub arguments_digest : String
  pub capability : Fields
  pub side_effect_level : String
  pub idempotency_key : Option String
  pub approval_required : Bool

abbrev pub same_execution : NewInvocation → ToolInvocationRecord → Bool
same_execution n r =
    r.task_id == n.task_id
    && r.runtime_thread_id == n.runtime_thread_id
    && nat_eq r.loop_index n.loop_index
    && r.tool_call_id == n.tool_call_id
    && r.arguments_digest == n.arguments_digest

-- `_validate_tool_invocation_identity`
abbrev pub same_identity : NewInvocation → ToolInvocationRecord → Bool
same_identity n r = same_execution n r && r.context_id == n.context_id && r.tool_name == n.tool_name

unfoldable pub first_match :
    (ToolInvocationRecord → Bool) → List ToolInvocationRecord → Option ToolInvocationRecord
first_match p [] = none
first_match p (r ∷ rows) = if p r then some r else first_match p rows

-- ORDER BY created_at DESC LIMIT 1
unfoldable pub last_match :
    (ToolInvocationRecord → Bool) → List ToolInvocationRecord → Option ToolInvocationRecord
last_match p [] = none
last_match p (r ∷ rows) = or_else (last_match p rows) (if p r then some r else none)

unfoldable pub find_latest_tool_invocation_for_effect :
    String → String → String → Store → Option ToolInvocationRecord
find_latest_tool_invocation_for_effect task_id tool_name arguments_digest s =
    last_match
      (λ r.
        r.task_id == task_id && r.tool_name == tool_name && r.arguments_digest == arguments_digest)
      s.invocations

abbrev pub row_of : NewInvocation → ToolInvocationRecord
row_of n = record {
  invocation_id = n.invocation_id;
  task_id = n.task_id;
  context_id = n.context_id;
  runtime_thread_id = n.runtime_thread_id;
  loop_index = n.loop_index;
  tool_call_id = n.tool_call_id;
  tool_name = n.tool_name;
  normalized_arguments = n.normalized_arguments;
  arguments_digest = n.arguments_digest;
  capability = n.capability;
  side_effect_level = n.side_effect_level;
  idempotency_key = n.idempotency_key;
  approval_required = n.approval_required;
  approval_status = if n.approval_required then pending else not_required;
  approval_reason = none;
  status = prepared;
  result_artifact_id = none;
  error_code = none;
  error_message = none;
  error_retryable = false;
}

unfoldable pub validated : NewInvocation → ToolInvocationRecord → Exec Store ToolInvocationRecord
validated n existing = do
  raise_if (not (same_identity n existing)) (invocation_identity_conflict existing.invocation_id)
  pure existing

unfoldable pub insert_invocation : ToolInvocationRecord → Store → Store
insert_invocation r s = record s { invocations = insert invocation_key r s.invocations }

unfoldable pub create_invocation : NewInvocation → Exec Store ToolInvocationRecord
create_invocation n = do
  matching ← gets (λ s. first_match (same_execution n) s.invocations)
  elim matching [
    | some match ↦ validated n match
    | none ↦ (do modify (insert_invocation (row_of n)); known_invocation n.invocation_id)
  ]

unfoldable pub create_or_get_tool_invocation : NewInvocation → Exec Store ToolInvocationRecord
create_or_get_tool_invocation n = do
  raise_if (ltb n.loop_index 1) invocation_loop_index
  raise_if
      (not (
        truthy n.invocation_id
        && truthy n.tool_call_id
        && truthy n.tool_name
        && truthy n.arguments_digest))
      invocation_identity_required
  transaction (do
    found ← get_task n.task_id
    task ← require found (unknown_task n.task_id)
    raise_if (not (task.context_id == n.context_id)) (invocation_context_mismatch n.task_id)
    raise_if (not (task.runtime_thread_id == n.runtime_thread_id))
        (invocation_thread_mismatch n.task_id)
    raise_if (is_some task.assigned_agent_id) (invocation_remote_proxy n.task_id)
    existing ← gets (find_invocation n.invocation_id)
    elim existing [ some old ↦ validated n old | none ↦ create_invocation n ])

abbrev pub started : ToolInvocationRecord → ToolInvocationRecord
started r = if invocation_status_eq r.status prepared then record r { status = running } else r

unfoldable pub begin_tool_invocation : String → Exec Store ToolInvocationRecord
begin_tool_invocation invocation_id = transaction (do
  r ← known_invocation invocation_id
  if not (invocation_status_eq r.status prepared)
      then pure r
      else (if r.approval_required && not (approval_eq r.approval_status approved)
          then pure r
          else rewrite_invocation invocation_id started))

-- The exact effect request that an operator's decision names.
pub record Binding : Type 0 where
  pub task_id : String
  pub invocation_id : String
  pub tool_name : String
  pub arguments_digest : String

abbrev pub decision_of : Bool → ToolInvocationApprovalStatus
decision_of accept = if accept then approved else rejected

abbrev pub decided : Bool → Option String → ToolInvocationRecord → ToolInvocationRecord
decided true reason r = record r { approval_status = approved; approval_reason = reason }
decided false reason r = record r {
  approval_status = rejected;
  approval_reason = reason;
  status = canceled;
}

unfoldable pub resolve_tool_invocation_approval :
    Binding → Bool → Option String → Exec Store ToolInvocationRecord
resolve_tool_invocation_approval b accept reason = transaction (do
  r ← known_invocation b.invocation_id
  raise_if
      (not (
        r.task_id == b.task_id
        && r.tool_name == b.tool_name
        && r.arguments_digest == b.arguments_digest))
      (approval_mismatch b.invocation_id)
  raise_if (not r.approval_required) (approval_not_required b.invocation_id)
  if approval_eq r.approval_status (decision_of accept) then pure r else (do
    raise_if (not (approval_eq r.approval_status pending)) (approval_resolved b.invocation_id)
    raise_if (not (invocation_status_eq r.status prepared))
        (invocation_not_awaiting b.invocation_id)
    rewrite_invocation b.invocation_id (decided accept reason)))

-- The three values of the binding, each a text that is not empty.
unfoldable pub resolve_bound :
    String
    → Option Json
    → Option Json
    → Option Json
    → Bool
    → Option String
    → Exec Store (Option ToolInvocationRecord)
resolve_bound task_id none none none accept reason = pure none
resolve_bound task_id (some (str invocation_id)) (some (str tool_name)) (some (str digest)) accept
      reason =
    do
      raise_if (not (truthy invocation_id && truthy tool_name && truthy digest))
          approval_binding_invalid
      r ←
          resolve_tool_invocation_approval
            (record {
              task_id = task_id;
              invocation_id = invocation_id;
              tool_name = tool_name;
              arguments_digest = digest;
            })
            accept reason
      pure (some r)
resolve_bound task_id _ _ _ accept reason = raise approval_binding_invalid

-- `.get` reads `None` for a missing key and for a JSON `null`.
unfoldable pub get_value : String → Fields → Option Json
get_value key fields = elim (get key fields) [
  | none ↦ none
  | some v ↦ elim v [ Json.null ↦ none | other ↦ some other ]
]

unfoldable pub resolve_pending_tool_invocation_approval :
    String → Fields → Bool → Option String → Exec Store (Option ToolInvocationRecord)
resolve_pending_tool_invocation_approval task_id input_request accept reason =
    resolve_bound task_id (get_value "invocationId" input_request)
      (get_value "toolName" input_request) (get_value "argumentsDigest" input_request) accept reason

-- `artifact_id`, parts and metadata of a result, as the ledger hands them over.
pub record NewResult : Type 0 where
  pub artifact_parts : List Json
  pub artifact_metadata : Fields

abbrev pub result_artifact : String → String
result_artifact invocation_id = text_append invocation_id ":result"

abbrev pub done : String → ToolInvocationRecord → ToolInvocationRecord
done artifact_id r = record r {
  status = succeeded;
  result_artifact_id = some artifact_id;
  error_code = none;
  error_message = none;
  error_retryable = false;
}

unfoldable pub complete_running : ToolInvocationRecord → NewResult → Exec Store ToolInvocationRecord
complete_running r result = do
  artifact ← upsert_artifact (record {
    artifact_id = result_artifact r.invocation_id;
    task_id = r.task_id;
    context_id = r.context_id;
    parts = result.artifact_parts;
    metadata = result.artifact_metadata;
  })
  append_task_event r.task_id "task_artifact_created" none (
      some (
        field "artifact_id" (str artifact.artifact_id) (
          field "kind" (str "tool_invocation_result")
            (entry "invocation_id" (str r.invocation_id)))))
  rewrite_invocation r.invocation_id (done artifact.artifact_id)

unfoldable pub complete_tool_invocation_success :
    String → NewResult → Exec Store ToolInvocationRecord
complete_tool_invocation_success invocation_id result = transaction (do
  r ← known_invocation invocation_id
  if invocation_status_eq r.status succeeded then pure r else (do
    raise_if (not (invocation_status_eq r.status running)) (invocation_not_running invocation_id)
    complete_running r result))

-- The error columns that an invocation gets when it ends without a result.
pub record Ending : Type 0 where
  pub code : String
  pub message : String
  pub retryable : Bool

abbrev pub ended : ToolInvocationStatus → Ending → ToolInvocationRecord → ToolInvocationRecord
ended status e r = record r {
  status = status;
  error_code = some e.code;
  error_message = some e.message;
  error_retryable = e.retryable;
}

-- A status that `mark_tool_invocation_uncertain` leaves alone.
abbrev pub is_settled : ToolInvocationStatus → Bool
is_settled prepared = false
is_settled running = false
is_settled _ = true

unfoldable pub mark_tool_invocation_uncertain : String → Ending → Exec Store ToolInvocationRecord
mark_tool_invocation_uncertain invocation_id e = transaction (do
  r ← known_invocation invocation_id
  if is_settled r.status then pure r else rewrite_invocation invocation_id (ended uncertain e))

-- The cancellations write no `error_retryable`.
abbrev pub dropped : String → ToolInvocationRecord → ToolInvocationRecord
dropped reason r = record r {
  status = canceled;
  error_code = some "tool_invocation_canceled";
  error_message = some reason;
}

unfoldable pub cancel_tool_invocation : String → String → Exec Store ToolInvocationRecord
cancel_tool_invocation invocation_id reason = transaction (do
  r ← known_invocation invocation_id
  if not (invocation_status_eq r.status prepared)
      then pure r
      else rewrite_invocation invocation_id (dropped reason))

-- UPDATE ... WHERE task_id=? AND status=?
abbrev pub of_task :
    String
    → ToolInvocationStatus
    → (ToolInvocationRecord → ToolInvocationRecord)
    → ToolInvocationRecord
    → ToolInvocationRecord
of_task task_id status f r =
    if r.task_id == task_id && invocation_status_eq r.status status then f r else r

unfoldable pub cancel_all_prepared : String → String → Store → Store
cancel_all_prepared task_id reason s = record s {
  invocations = map (of_task task_id prepared (dropped reason)) s.invocations;
}

-- No caller reads the number of rows that these two return.
unfoldable pub cancel_prepared_tool_invocations : String → String → Exec Store Unit
cancel_prepared_tool_invocations task_id reason = modify (cancel_all_prepared task_id reason)

unfoldable pub all_running_uncertain : String → Ending → Store → Store
all_running_uncertain task_id e s = record s {
  invocations = map (of_task task_id running (ended uncertain e)) s.invocations;
}

unfoldable pub mark_running_tool_invocations_uncertain : String → Ending → Exec Store Unit
mark_running_tool_invocations_uncertain task_id e = modify (all_running_uncertain task_id e)

unfoldable pub any_match : (ToolInvocationRecord → Bool) → List ToolInvocationRecord → Bool
any_match p [] = false
any_match p (r ∷ rows) = p r || any_match p rows

unfoldable pub has_potentially_side_effecting_tool_invocation : String → Store → Bool
has_potentially_side_effecting_tool_invocation task_id s =
    any_match (λ r. r.task_id == task_id && not (r.side_effect_level == "none")) s.invocations
