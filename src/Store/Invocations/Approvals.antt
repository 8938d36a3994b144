-- ===== src/Store/Invocations/Approvals.antt =====
-- An approval writes to the tool invocations alone.
use mathlib.Core.Path.{subst}
use vermay_agent.Prelude.{
  sym, String, ◌≡◌, refl, Bool, Option, none, some, truthy, Option-cases, Bool-cases, inl, inr,
  ◌&&◌,
}
use vermay_agent.Json.{Json, str, Fields}
use vermay_agent.Exec.{mapped_state}
use vermay_agent.Store.{Store}
use vermay_agent.Store.Invocations.{
  find_invocation, update_invocation, Binding, resolve_tool_invocation_approval, resolve_bound,
  resolve_pending_tool_invocation_approval, get_value,
}
use vermay_agent.Store.Invocations.Effects.{can_resolve, resolve_effect, resolve_of_unknown}

pub record SameTasks (s t : Store) : Type 0 where
  pub tasks : t.tasks ≡ s.tasks
  pub pending : t.pending ≡ s.pending
  pub queued : t.queued ≡ s.queued

pub SameTasks-refl : (s : Store) → SameTasks s s
SameTasks-refl s = record { tasks = refl; pending = refl; queued = refl }

SameTasks-resolve :
    (b : Binding) (accept : Bool) (reason : Option String) (s : Store)
    → SameTasks s (resolve_tool_invocation_approval b accept reason s).1
unfolding update_invocation
SameTasks-resolve b accept reason s = elim (Option-cases (find_invocation b.invocation_id s)) [
  | inl h ↦ rw (resolve_of_unknown b accept reason s h) (SameTasks-refl s)
  | inr (r, h) ↦ elim (Bool-cases (can_resolve b accept r)) [
    | inl can ↦
        rw (resolve_effect b accept reason s r h, can)
          (record { tasks = refl; pending = refl; queued = refl })
    | inr cannot ↦ rw (resolve_effect b accept reason s r h, cannot) (SameTasks-refl s)
  ]
]

SameTasks-resolve_bound :
    (task_id : String) (a b c : Option Json) (accept : Bool) (reason : Option String) (s : Store)
    → SameTasks s (resolve_bound task_id a b c accept reason s).1
unfolding resolve_bound
SameTasks-resolve_bound task_id none none none accept reason s = SameTasks-refl s
SameTasks-resolve_bound task_id (some (str id)) (some (str tool)) (some (str digest)) accept reason
      s =
    elim (Bool-cases (truthy id && truthy tool && truthy digest)) [
      | inr h ↦ rw h (SameTasks-refl s)
      | inl h ↦
          let bound : Binding = record {
            task_id = task_id;
            invocation_id = id;
            tool_name = tool;
            arguments_digest = digest;
          } in
          rw h (
            subst (SameTasks s)
              (sym (mapped_state some (resolve_tool_invocation_approval bound accept reason s)))
              (SameTasks-resolve bound accept reason s))
    ]
SameTasks-resolve_bound task_id a b c accept reason s = SameTasks-refl s

pub SameTasks-resolve_pending :
    (task_id : String) (input_request : Fields) (accept : Bool) (reason : Option String) (s : Store)
    → SameTasks s (resolve_pending_tool_invocation_approval task_id input_request accept reason s).1
unfolding resolve_pending_tool_invocation_approval
SameTasks-resolve_pending task_id input_request accept reason s =
    SameTasks-resolve_bound task_id (get_value "invocationId" input_request)
      (get_value "toolName" input_request) (get_value "argumentsDigest" input_request) accept reason
      s
