-- ===== src/Examples/Transactions.antt =====
-- A transaction with an inner scope whose exception is caught.
use vermay_agent.Prelude.{ℕ, ◌+◌, ◌*◌, String, ◌≡◌, []}
use vermay_agent.Storage.{Ops, done, next, write, after_commit, scope, attempt, raise, run_ops}
use vermay_agent.Storage.Joined.{opened, idle, outside_all, transactions_join}

abbrev inner_failure : Ops ℕ String
inner_failure =
    next (scope (next (write (λ n. n * 2)) (next (after_commit "inner") (next raise done)))) done

abbrev statements : Ops ℕ String
statements =
    next
      (scope (
        next (write (λ n. n + 1)) (next (after_commit "wake") (next (attempt inner_failure) done))))
      (next (write (λ n. n + 3)) done)

transactions_join_example : run_ops statements (opened 1) ≡ idle (outside_all statements 1 [])
transactions_join_example = transactions_join statements 1
