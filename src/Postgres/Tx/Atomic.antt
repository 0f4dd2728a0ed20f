-- ===== src/Postgres/Tx/Atomic.antt =====
-- What WithTx of backend-api/internal/storage/postgres/tx.go leaves of the tables.
use code_intelegence.Base.{
  ℕ, zero, suc, ◌+◌, ◌≤◌, ◌≡◌, refl, Option, none, some, arith, Bool-cases, inl, inr,
}
use mathlib.Core.Path.{subst, sym}
use code_intelegence.Domain.Errors.{GoError, Result, ok, err}
use code_intelegence.Postgres.Tx.{
  Server, Body, exec_tx, attempts, begin, commit, deadlocked, with_tx, max_deadlock_retries,
}

module _ {S A : Type 0} (server : Server) (body : Body S A) (s : S) where
  -- What one attempt may leave: a failure and the old tables, or the callback's own result.
  abbrev Atomic : ℕ → Result GoError A × S → Type 0
  Atomic attempt (err e, after) = after ≡ s
  Atomic attempt (ok a, after) = body (server.query_fails attempt) s ≡ (ok a, after)

  commit-Atomic :
      (attempt : ℕ) (failure : Option GoError) (result : Result GoError A) (after : S)
      → body (server.query_fails attempt) s ≡ (result, after)
      → Atomic attempt (commit failure s result after)
  commit-Atomic attempt failure (err e) after h = refl
  commit-Atomic attempt (some e) (ok a) after h = refl
  commit-Atomic attempt none (ok a) after h = h

  begin-Atomic :
      (attempt : ℕ) (begun : Option GoError) → Atomic attempt (begin begun server attempt body s)
  begin-Atomic attempt (some e) = refl
  begin-Atomic attempt none =
      commit-Atomic attempt (server.commit_fails attempt) (body (server.query_fails attempt) s).0
        (body (server.query_fails attempt) s).1 refl

  exec_tx-Atomic : (attempt : ℕ) → Atomic attempt (exec_tx server attempt body s)
  unfolding exec_tx
  exec_tx-Atomic attempt = begin-Atomic attempt (server.begin_fails attempt)

  -- What WithTx may leave: a failure and the old tables, or what the callback returned in one of
  -- the attempts `first` to `last`, run on the old tables.
  abbrev pub Settled : ℕ → ℕ → Result GoError A × S → Type 0
  Settled first last (err e, after) = after ≡ s
  Settled first last (ok a, after) =
      (attempt : ℕ) × (first ≤ attempt)
      × (attempt ≤ last)
      × (body (server.query_fails attempt) s ≡ (ok a, after))

  made-Settled :
      (first last : ℕ) (made : Result GoError A × S)
      → first ≤ last
      → Atomic first made
      → Settled first last made
  made-Settled first last (err e, after) h at = at
  made-Settled first last (ok a, after) h at = (first, omega arith, h, at)

  later-Settled :
      (first last : ℕ) (made : Result GoError A × S)
      → Settled (suc first) last made
      → Settled first last made
  later-Settled first last (err e, after) h = h
  later-Settled first last (ok a, after) (n, lo, hi, at) = (n, omega arith, hi, at)

  attempts-Settled :
      (left first last : ℕ)
      → first + left ≡ last
      → Settled first last (attempts server first left body s)
  unfolding attempts
  attempts-Settled zero first last h =
      made-Settled first last (exec_tx server first body s) (omega arith) (exec_tx-Atomic first)
  attempts-Settled (suc left) first last h =
      let again = attempts-Settled left (suc first) last (omega arith) in
      elim (Bool-cases (deadlocked (exec_tx server first body s).0)) [
        | inr e ↦ rw e (
            made-Settled first last (exec_tx server first body s) (omega arith)
              (exec_tx-Atomic first))
        | inl e ↦ rw e (elim (Bool-cases (server.context_ends (suc first))) [
          | inl c ↦ rw c
          | inr c ↦ rw c (later-Settled first last (attempts server (suc first) left body s) again)
        ])
      ]

  -- WithTx is atomic whatever the server answers and however often it retries: an error leaves the
  -- tables as they were, and a success leaves what one run of the callback on those tables,
  -- in the first attempt or one of at most three retries, left.
  pub with_tx_atomic : Settled 0 max_deadlock_retries (with_tx server body s)
  unfolding with_tx
  with_tx_atomic = attempts-Settled max_deadlock_retries 0 max_deadlock_retries refl

  -- What holds of the old tables and after every success of the callback holds after WithTx.
  pub with_tx-keeps :
      (P : S → Type 0)
      → P s
      → ((attempt : ℕ) (a : A) (after : S)
          → body (server.query_fails attempt) s ≡ (ok a, after)
          → P after)
      → P (with_tx server body s).1
  with_tx-keeps P h step = settled (with_tx server body s) with_tx_atomic
    where
      settled : (r : Result GoError A × S) → Settled 0 max_deadlock_retries r → P r.1
      settled (err e, after) same = subst P (sym same) h
      settled (ok a, after) (n, lo, hi, at) = step n a after at

  -- A success of WithTx is a success of the callback on the old tables.
  pub with_tx_committed :
      {a : A} {after : S}
      → with_tx server body s ≡ (ok a, after)
      → (attempt : ℕ) × (body (server.query_fails attempt) s ≡ (ok a, after))
  with_tx_committed {a} {after} h =
      let (n, lo, hi, at) = subst (Settled 0 max_deadlock_retries) h with_tx_atomic in (n, at)

  -- A failure of WithTx leaves the old tables.
  with_tx_rolled_back :
      {e : GoError} {after : S} → with_tx server body s ≡ (err e, after) → after ≡ s
  with_tx_rolled_back h = subst (Settled 0 max_deadlock_retries) h with_tx_atomic
