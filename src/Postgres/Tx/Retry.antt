-- ===== src/Postgres/Tx/Retry.antt =====
-- When WithTx retries, and when it does not.
use code_intelegence.Base.{ℕ, zero, suc, ◌+◌, ◌≤◌, ◌<◌, ◌≡◌, true, false, arith, ap}
use native.Mathlib.Decide.{dec_lt}
use code_intelegence.Postgres.Tx.{
  Server, Body, exec_tx, attempts, deadlocked, with_tx, max_deadlock_retries,
}

module _ {S A : Type 0} (server : Server) (body : Body S A) (s : S) where
  -- The loop at attempt `first` passes over deadlocks up to the attempt `stop`.
  skip_deadlocks :
      (left first stop : ℕ)
      → first ≤ stop
      → stop ≤ first + left
      → ((i : ℕ) → i < stop → deadlocked (exec_tx server i body s).0 ≡ true)
      → ((i : ℕ) → i < stop → server.context_ends (suc i) ≡ false)
      → deadlocked (exec_tx server stop body s).0 ≡ false
      → attempts server first left body s ≡ exec_tx server stop body s
  unfolding attempts
  skip_deadlocks zero first stop lo hi dead alive settled =
      let e : first ≡ stop = omega arith in ap (λ i. exec_tx server i body s) e
  skip_deadlocks (suc left) first stop lo hi dead alive settled = elim (dec_lt first stop) [
    | yes p ↦
        rw (dead first p, alive first p)
          (skip_deadlocks left (suc first) stop (omega arith) (omega arith) dead alive settled)
    | no p ↦ let e : first ≡ stop = omega arith in rw e (rw settled)
  ]

  -- When the attempts before `stop` end in deadlocks, at most three of them, with the context
  -- alive at each wait, and the attempt `stop` does not, WithTx gives what that attempt gives.
  pub with_tx_retries :
      (stop : ℕ)
      → stop ≤ max_deadlock_retries
      → ((i : ℕ) → i < stop → deadlocked (exec_tx server i body s).0 ≡ true)
      → ((i : ℕ) → i < stop → server.context_ends (suc i) ≡ false)
      → deadlocked (exec_tx server stop body s).0 ≡ false
      → with_tx server body s ≡ exec_tx server stop body s
  unfolding with_tx
  with_tx_retries stop hi dead alive settled =
      skip_deadlocks max_deadlock_retries 0 stop (omega arith) hi dead alive settled
