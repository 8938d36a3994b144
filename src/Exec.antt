-- ===== src/Exec.antt =====
-- A call that reads and writes the store and may raise. What was written before a raise stays
-- written; `transaction` takes it back (vermay/storage.py, the outermost scope).
use vermay_agent.Prelude.{String, Bool, Option, none, some, if◌then◌else◌, ◌≡◌, refl, ◌⊎◌, inl, inr}

-- One constructor for each `raise` of the modelled modules, under its message; the text that is
-- interpolated is the argument.
pub data Error : Type 0 where
  unknown_task unknown_context unknown_message : String → Error
  unknown_tool_invocation unknown_output_message : String → Error
  message_conflict : String → Error
  invalid_local_task_transition not_a_transition_target : Error
  remote_proxy_local_transition : String → Error
  remote_proxy_queue not_queued thread_mismatch : String → Error
  queued_thread_mismatch already_queued payload_required : String → Error
  payload_kind_mismatch unsupported_command_version : Error
  continuation_kind_required : String → Error
  no_pending wrong_pending : String → String → Error
  invocation_loop_index invocation_identity_required : Error
  invocation_context_mismatch invocation_thread_mismatch : String → Error
  invocation_remote_proxy invocation_identity_conflict : String → Error
  approval_mismatch approval_not_required approval_resolved : String → Error
  invocation_not_awaiting invocation_not_running : String → Error
  approval_binding_invalid : Error
  artifact_ownership : String → Error
  task_terminal : String → Error
  not_waiting no_request waits_for_other : String → String → Error
  delegated_continuation context_mismatch : String → Error
  runner_missing input_role input_parts : Error
  invalid_command : Error

pub data Result {ℓ} (A : Type ℓ) : Type ℓ where
  ok : A → Result A
  err : Error → Result A

pub Result-cases {ℓ} :
    {A : Type ℓ} (r : Result A) → ((e : Error) × (r ≡ err e)) ⊎ ((a : A) × (r ≡ ok a))
Result-cases (ok a) = inr (a, refl)
Result-cases (err e) = inl (e, refl)

abbrev pub Exec : Type 0 → Type 0 → Type 0
Exec S A = S → Result A × S

module _ {S A : Type 0} where
  abbrev pub pure : A → Exec S A
  pure a s = (ok a, s)

  abbrev pub raise : Error → Exec S A
  raise e s = (err e, s)

  abbrev pub gets : (S → A) → Exec S A
  gets f s = (ok (f s), s)

  abbrev pub lift : Result A → Exec S A
  lift r s = (r, s)

  -- `x = get(); if x is None: raise e`
  abbrev pub require : Option A → Error → Exec S A
  require none e s = (err e, s)
  require (some a) e s = (ok a, s)

  -- `with self.transaction():`, around the rest of the call
  abbrev pub transaction : Exec S A → Exec S A
  transaction m s = let (r, t) = m s in elim r [ ok a ↦ (ok a, t) | err e ↦ (err e, s) ]

abbrev pub modify : {S : Type 0} → (S → S) → Exec S Unit
modify f s = (ok tt, f s)

-- `if b: raise e`
abbrev pub raise_if : {S : Type 0} → Bool → Error → Exec S Unit
raise_if b e s = (if b then err e else ok tt, s)

infixl 5 ◌>>=◌ ◌>>◌
abbrev pub ◌>>=◌ : {S A B : Type 0} → Exec S A → (A → Exec S B) → Exec S B
◌>>=◌ m f s = let (r, t) = m s in elim r [ ok a ↦ f a t | err e ↦ (err e, t) ]

abbrev pub ◌>>◌ : {S A B : Type 0} → Exec S A → Exec S B → Exec S B
m >> k = m >>= λ _. k

-- What is left of a call when a `return` of its value follows.
abbrev pub mapped : {A B S : Type 0} → (A → B) → Result A × S → Result B × S
mapped f (r, t) = elim r [ ok a ↦ (ok (f a), t) | err e ↦ (err e, t) ]

pub mapped_state : {A B S : Type 0} (f : A → B) (p : Result A × S) → (mapped f p).1 ≡ p.1
mapped_state f (ok a, t) = refl
mapped_state f (err e, t) = refl
