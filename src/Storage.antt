-- ===== src/Storage.antt =====
-- vermay/storage.py (`Storage`): `execute`, `transaction` and `register_after_commit`, with the depth of
-- scopes and the callbacks that wait for the commit. The lock is left out. A write is any function of
-- the data, and a callback is what it is known by: `_run_after_commit_callbacks` catches what it
-- raises.
use vermay_agent.Prelude.{
  ℕ, ◌+◌, ◌-◌, Bool, true, false, List, [], ◌∷◌, ◌++◌, nat_eq, if◌then◌else◌,
}
pub mod Joined

-- What the code between two points does with the storage: a write, a callback, a scope, an
-- exception, or statements whose exception is caught.
mutual
  pub data Op (S C : Type 0) : Type 0 where
    write : (S → S) → Op S C
    after_commit : C → Op S C
    scope : Ops S C → Op S C
    attempt : Ops S C → Op S C
    raise : Op S C

  pub data Ops (S C : Type 0) : Type 0 where
    done : Ops S C
    next : Op S C → Ops S C → Ops S C

-- The committed data, what the connection sees, `_transaction_depth`, `_after_commit_callbacks`, and
-- the callbacks that have run.
pub record Storage (S C : Type 0) : Type 0 where
  pub durable : S
  pub working : S
  pub depth : ℕ
  pub callbacks : List C
  pub ran : List C

-- Whether a step returned, and the storage after it.
abbrev pub Outcome : Type 0 → Type 0 → Type 0
Outcome S C = Bool × Storage S C

module _ {S C : Type 0} where
  unfoldable pub execute : (S → S) → Storage S C → Storage S C
  execute f c =
      let written = f c.working in
      if nat_eq c.depth 0
      then record c { working = written; durable = written }
      else record c { working = written }

  unfoldable pub register_after_commit : C → Storage S C → Storage S C
  register_after_commit callback c =
      if nat_eq c.depth 0
      then record c { ran = c.ran ++ callback ∷ [] }
      else record c { callbacks = c.callbacks ++ callback ∷ [] }

  -- Up to the `yield` of `transaction`.
  unfoldable pub enter : Storage S C → Storage S C
  enter c = record c {
    callbacks = if nat_eq c.depth 0 then [] else c.callbacks;
    depth = c.depth + 1;
  }

  -- After it: the commit or the rollback of `with self.conn`, the `finally`, and the callbacks.
  unfoldable pub leave : Bool → Bool → Storage S C → Storage S C
  leave is_outer true c =
      if is_outer
      then record c {
        durable = c.working;
        depth = c.depth - 1;
        callbacks = [];
        ran = c.ran ++ c.callbacks;
      }
      else record c { depth = c.depth - 1 }
  leave is_outer false c =
      if is_outer
      then record c { working = c.durable; depth = c.depth - 1; callbacks = [] }
      else record c { depth = c.depth - 1 }

  abbrev pub then_run : Outcome S C → (Storage S C → Outcome S C) → Outcome S C
  then_run (true, c) k = k c
  then_run (false, c) k = (false, c)

  abbrev pub close_scope : Bool → Outcome S C → Outcome S C
  close_scope is_outer (b, c) = (b, leave is_outer b c)

  abbrev pub caught : Outcome S C → Outcome S C
  caught (b, c) = (true, c)

  unfoldable mutual
    unfolding execute register_after_commit enter leave

    pub run_op : Op S C → Storage S C → Outcome S C
    run_op (write f) c = (true, execute f c)
    run_op (after_commit callback) c = (true, register_after_commit callback c)
    run_op (scope ops) c = close_scope (nat_eq c.depth 0) (run_ops ops (enter c))
    run_op (attempt ops) c = caught (run_ops ops c)
    run_op raise c = (false, c)

    pub run_ops : Ops S C → Storage S C → Outcome S C
    run_ops done c = (true, c)
    run_ops (next op ops) c = then_run (run_op op c) (run_ops ops)
