-- ===== src/Storage/Joined.antt =====
-- vermay/storage.py: transactions as joined scopes, without a depth or a second copy of the data.
use vermay_agent.Prelude.{
  ℕ, ◌+◌, ◌-◌, ◌≡◌, ◌∙◌, ap, refl, Bool-cases, inl, inr, Bool, true, false, List, [], ◌∷◌, ◌++◌,
  nat_eq, arith, if◌then◌else◌,
}
use vermay_agent.Storage.{
  Op, write, after_commit, scope, attempt, raise, Ops, done, next, Storage, Outcome, execute,
  register_after_commit, enter, leave, then_run, close_scope, caught, run_op, run_ops,
}

-- Inside a scope: whether the step returned, the data, and the callbacks that wait.
pub record Pending (S C : Type 0) : Type 0 where
  pub returned : Bool
  pub data_ : S
  pub waiting : List C

-- Outside all scopes: whether the step returned, the committed data, and the callbacks that have run.
pub record Committed (S C : Type 0) : Type 0 where
  pub returned : Bool
  pub data_ : S
  pub ran : List C

nonzero : (n : ℕ) → nat_eq (n + 1) 0 ≡ false
nonzero n = ground arith

left : (n : ℕ) → n + 1 + 1 - 1 ≡ n + 1
left n = omega arith

module _ {S C : Type 0} where
  abbrev pub then_inside : Pending S C → (S → List C → Pending S C) → Pending S C
  then_inside p k = if p.returned then k p.data_ p.waiting else p

  unfoldable mutual
    pub inside : Op S C → S → List C → Pending S C
    inside (write f) s cs = record { returned = true; data_ = f s; waiting = cs }
    inside (after_commit callback) s cs = record {
      returned = true;
      data_ = s;
      waiting = cs ++ callback ∷ [];
    }
    inside (scope ops) s cs = inside_all ops s cs
    inside (attempt ops) s cs = record (inside_all ops s cs) { returned = true }
    inside raise s cs = record { returned = false; data_ = s; waiting = cs }

    pub inside_all : Ops S C → S → List C → Pending S C
    inside_all done s cs = record { returned = true; data_ = s; waiting = cs }
    inside_all (next op ops) s cs = then_inside (inside op s cs) (inside_all ops)

  abbrev pub commit_if : Pending S C → S → List C → Committed S C
  commit_if p s ran =
      if p.returned
      then record { returned = true; data_ = p.data_; ran = ran ++ p.waiting }
      else record { returned = false; data_ = s; ran = ran }

  abbrev pub then_outside : Committed S C → (S → List C → Committed S C) → Committed S C
  then_outside p k = if p.returned then k p.data_ p.ran else p

  unfoldable mutual
    pub outside : Op S C → S → List C → Committed S C
    outside (write f) s ran = record { returned = true; data_ = f s; ran = ran }
    outside (after_commit callback) s ran = record {
      returned = true;
      data_ = s;
      ran = ran ++ callback ∷ [];
    }
    outside (scope ops) s ran = commit_if (inside_all ops s []) s ran
    outside (attempt ops) s ran = record (outside_all ops s ran) { returned = true }
    outside raise s ran = record { returned = false; data_ = s; ran = ran }

    pub outside_all : Ops S C → S → List C → Committed S C
    outside_all done s ran = record { returned = true; data_ = s; ran = ran }
    outside_all (next op ops) s ran = then_outside (outside op s ran) (outside_all ops)

  -- The storage inside a scope that has come to `p`.
  abbrev pub at_depth : ℕ → S → List C → Pending S C → Outcome S C
  at_depth depth durable ran p = (
    p.returned,
    record {
      durable = durable;
      working = p.data_;
      depth = depth;
      callbacks = p.waiting;
      ran = ran;
    },
  )

  -- The storage outside all scopes.
  abbrev pub idle : Committed S C → Outcome S C
  idle p = (
    p.returned,
    record { durable = p.data_; working = p.data_; depth = 0; callbacks = []; ran = p.ran },
  )

  abbrev pub storage_in : ℕ → S → List C → S → List C → Storage S C
  storage_in depth durable ran s cs = record {
    durable = durable;
    working = s;
    depth = depth;
    callbacks = cs;
    ran = ran;
  }

  execute_inside :
      (n : ℕ) (durable : S) (ran : List C) (f : S → S) (s : S) (cs : List C)
      → execute f (storage_in (n + 1) durable ran s cs) ≡ storage_in (n + 1) durable ran (f s) cs
  unfolding execute
  execute_inside n durable ran f s cs = rw (nonzero n) refl

  register_inside :
      (n : ℕ) (durable : S) (ran : List C) (callback : C) (s : S) (cs : List C)
      → register_after_commit callback (storage_in (n + 1) durable ran s cs)
        ≡ storage_in (n + 1) durable ran s (cs ++ callback ∷ [])
  unfolding register_after_commit
  register_inside n durable ran callback s cs = rw (nonzero n) refl

  enter_inside :
      (n : ℕ) (durable : S) (ran : List C) (s : S) (cs : List C)
      → enter (storage_in (n + 1) durable ran s cs) ≡ storage_in (n + 1 + 1) durable ran s cs
  unfolding enter
  enter_inside n durable ran s cs = rw (nonzero n) refl

  -- An inner scope neither commits nor rolls back.
  leave_inside :
      (n : ℕ) (durable : S) (ran : List C) (p : Pending S C)
      → close_scope false (at_depth (n + 1 + 1) durable ran p) ≡ at_depth (n + 1) durable ran p
  unfolding leave
  leave_inside n durable ran p = elim (Bool-cases p.returned) [
    | inl h ↦ rw h (ap (λ k. (true, storage_in k durable ran p.data_ p.waiting)) (left n))
    | inr h ↦ rw h (ap (λ k. (false, storage_in k durable ran p.data_ p.waiting)) (left n))
  ]

  then_inside_lem :
      (n : ℕ) (durable : S) (ran : List C) (ops : Ops S C) (b : Bool) (s : S) (cs : List C)
      → ((s : S) (cs : List C)
          → run_ops ops (storage_in (n + 1) durable ran s cs)
            ≡ at_depth (n + 1) durable ran (inside_all ops s cs))
      → then_run (b, storage_in (n + 1) durable ran s cs) (run_ops ops)
        ≡ at_depth
            (n + 1)
            durable
            ran
            (then_inside (record { returned = b; data_ = s; waiting = cs }) (inside_all ops))
  then_inside_lem n durable ran ops true s cs later = later s cs
  then_inside_lem n durable ran ops false s cs later = refl

  mutual
    unfolding run_op run_ops inside inside_all

    run_inside :
        (n : ℕ) (durable : S) (ran : List C) (op : Op S C) (s : S) (cs : List C)
        → run_op op (storage_in (n + 1) durable ran s cs)
          ≡ at_depth (n + 1) durable ran (inside op s cs)
    run_inside n durable ran (write f) s cs =
        ap (λ c. (true, c)) (execute_inside n durable ran f s cs)
    run_inside n durable ran (after_commit callback) s cs =
        ap (λ c. (true, c)) (register_inside n durable ran callback s cs)
    run_inside n durable ran (scope ops) s cs =
        ap (λ b. close_scope b (run_ops ops (enter (storage_in (n + 1) durable ran s cs))))
          (nonzero n)
        ∙ ap (λ c. close_scope false (run_ops ops c)) (enter_inside n durable ran s cs)
        ∙ ap (close_scope false) (run_all_inside (n + 1) durable ran ops s cs)
        ∙ leave_inside n durable ran (inside_all ops s cs)
    run_inside n durable ran (attempt ops) s cs = ap caught (run_all_inside n durable ran ops s cs)
    run_inside n durable ran raise s cs = refl

    run_all_inside :
        (n : ℕ) (durable : S) (ran : List C) (ops : Ops S C) (s : S) (cs : List C)
        → run_ops ops (storage_in (n + 1) durable ran s cs)
          ≡ at_depth (n + 1) durable ran (inside_all ops s cs)
    run_all_inside n durable ran done s cs = refl
    run_all_inside n durable ran (next op ops) s cs =
        ap (λ o. then_run o (run_ops ops)) (run_inside n durable ran op s cs)
        ∙ then_inside_lem n durable ran ops (inside op s cs).returned (inside op s cs).data_
            (inside op s cs).waiting (λ s cs. run_all_inside n durable ran ops s cs)

  then_outside_lem :
      (ops : Ops S C) (b : Bool) (s : S) (ran : List C)
      → ((s : S) (ran : List C)
          → run_ops ops (storage_in 0 s ran s []) ≡ idle (outside_all ops s ran))
      → then_run (b, storage_in 0 s ran s []) (run_ops ops)
        ≡ idle (then_outside (record { returned = b; data_ = s; ran = ran }) (outside_all ops))
  then_outside_lem ops true s ran later = later s ran
  then_outside_lem ops false s ran later = refl

  -- The outermost scope commits as a whole, or not at all.
  leave_outer :
      (s : S) (ran : List C) (p : Pending S C)
      → close_scope true (at_depth 1 s ran p) ≡ idle (commit_if p s ran)
  unfolding leave
  leave_outer s ran p = elim (Bool-cases p.returned) [ inl h ↦ rw h refl | inr h ↦ rw h refl ]

  mutual
    unfolding run_op run_ops outside outside_all execute register_after_commit enter

    run_outside :
        (op : Op S C) (s : S) (ran : List C)
        → run_op op (storage_in 0 s ran s []) ≡ idle (outside op s ran)
    run_outside (write f) s ran = refl
    run_outside (after_commit callback) s ran = refl
    run_outside (scope ops) s ran =
        ap (close_scope true) (run_all_inside 0 s ran ops s [])
        ∙ leave_outer s ran (inside_all ops s [])
    run_outside (attempt ops) s ran = ap caught (run_all_outside ops s ran)
    run_outside raise s ran = refl

    run_all_outside :
        (ops : Ops S C) (s : S) (ran : List C)
        → run_ops ops (storage_in 0 s ran s []) ≡ idle (outside_all ops s ran)
    run_all_outside done s ran = refl
    run_all_outside (next op ops) s ran =
        ap (λ o. then_run o (run_ops ops)) (run_outside op s ran)
        ∙ then_outside_lem ops (outside op s ran).returned (outside op s ran).data_
            (outside op s ran).ran (λ s ran. run_all_outside ops s ran)

abbrev pub opened : {S C : Type 0} → S → Storage S C
opened s = record { durable = s; working = s; depth = 0; callbacks = []; ran = [] }

-- Any sequence of writes, callbacks, nested transactions, exceptions and caught exceptions on an open
-- storage does what the joined scopes say: outside all transactions each write is committed and each
-- callback runs at once; an outermost transaction commits everything that it and the scopes inside it
-- have written, then runs their callbacks in the order of their registration, or, when an exception
-- leaves it, commits nothing and runs none; a scope inside it neither commits nor takes back. At the
-- end no transaction is open, no callback waits, and the connection sees what is committed.
pub transactions_join :
    {S C : Type 0} (ops : Ops S C) (s : S) → run_ops ops (opened s) ≡ idle (outside_all ops s [])
transactions_join ops s = run_all_outside ops s []
