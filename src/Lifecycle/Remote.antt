-- ===== src/Lifecycle/Remote.antt =====
-- The proxy of a child agent's Task (`accepts_remote_proxy_snapshot`).
use vermay_agent.Prelude.{ℕ, ◌<◌, ◌≡◌, refl, ◌⊎◌, true, List, [], ◌∷◌, arith, if◌then◌else◌}
use vermay_agent.Lifecycle.{
  TaskStatus, created, queued, running, cancel_requested, input_required, auth_required, completed,
  canceled, failed, is_terminal, accepts_remote_proxy_snapshot,
}

-- How far a Task has come.
abbrev pub rank : TaskStatus → ℕ
rank created = 0
rank queued = 1
rank running = 2
rank input_required = 3
rank auth_required = 3
rank cancel_requested = 3
rank completed = 4
rank canceled = 4
rank failed = 4

-- An accepted snapshot either repeats the status or takes the proxy strictly forward.
pub snapshot_advances :
    (a b : TaskStatus) → accepts_remote_proxy_snapshot a b ≡ true → (a ≡ b) ⊎ (rank a < rank b)
unfolding accepts_remote_proxy_snapshot
snapshot_advances a b h = ground arith

-- The statuses that a proxy takes while snapshots come in (`record_remote_snapshot`).
unfoldable pub follow : TaskStatus → List TaskStatus → TaskStatus
follow current [] = current
follow current (next ∷ rest) =
    follow (if accepts_remote_proxy_snapshot current next then next else current) rest

terminal_step :
    (a b : TaskStatus)
    → is_terminal a ≡ true
    → (if accepts_remote_proxy_snapshot a b then b else a) ≡ a
unfolding accepts_remote_proxy_snapshot
terminal_step a b h = ground arith

-- The first terminal status that a proxy takes is final, whatever snapshots follow.
pub follow-terminal :
    (a : TaskStatus) (snapshots : List TaskStatus) → is_terminal a ≡ true → follow a snapshots ≡ a
unfolding follow
follow-terminal a [] h = refl
follow-terminal a (b ∷ rest) h = rw (terminal_step a b h) (follow-terminal a rest h)
