-- ===== src/Postgres/Tx.antt =====
-- backend-api/internal/storage/postgres/tx.go: WithTx runs a callback in a transaction, rolls back
-- on an error, and retries after a deadlock.
--
-- PostgreSQL is not this program's code. What it answers is a `Server`: for each attempt, whether
-- Begin, each query and Commit fail, and whether the context ends during the wait. A transaction
-- that was not committed leaves the tables as they were.
pub mod Atomic
pub mod Retry
use code_intelegence.Base.{
  ℕ, zero, suc, ◌+◌, String, Bool, true, false, Option, none, some, if◌then◌else◌,
}
use code_intelegence.Domain.Errors.{GoError, cancelled, wrap, Result, ok, err, is_deadlock}

pub record Server : Type 0 where
  pub begin_fails : ℕ → Option GoError
  pub query_fails : ℕ → String → Option GoError
  pub commit_fails : ℕ → Option GoError
  pub context_ends : ℕ → Bool

-- A server that answers everything.
abbrev pub healthy : Server
healthy = record {
  begin_fails = λ _. none;
  query_fails = λ _ _. none;
  commit_fails = λ _. none;
  context_ends = λ _. false;
}

abbrev pub max_deadlock_retries : ℕ
max_deadlock_retries = 3

-- The answers to the queries of one attempt, by query name.
abbrev pub Answers : Type 0
Answers = String → Option GoError

-- A callback over the tables `S`: what it returns, and the tables that it leaves.
abbrev pub Body : Type 0 → Type 0 → Type 0
Body S A = Answers → S → Result GoError A × S

-- IsDeadlock(lastErr)
abbrev pub deadlocked : {A : Type 0} → Result GoError A → Bool
deadlocked (ok a) = false
deadlocked (err e) = is_deadlock e

module _ {S A : Type 0} where
  -- One query under its name: the server's failure, or the effect on the tables.
  abbrev pub query : String → (S → Result GoError A × S) → Body S A
  query name run answers s = elim (answers name) [ none ↦ run s | some e ↦ (err e, s) ]

  -- `defer tx.Rollback`: the tables after an attempt that did not commit.
  abbrev commit : Option GoError → S → Result GoError A → S → Result GoError A × S
  commit failure before (err e) after = (err e, before)
  commit (some e) before (ok a) after = (err (wrap "commit tx" e), before)
  commit none before (ok a) after = (ok a, after)

  abbrev begin : Option GoError → Server → ℕ → Body S A → S → Result GoError A × S
  begin (some e) server attempt body s = (err (wrap "begin tx" e), s)
  begin none server attempt body s =
      let (result, after) = body (server.query_fails attempt) s in
      commit (server.commit_fails attempt) s result after

  unfoldable pub exec_tx : Server → ℕ → Body S A → S → Result GoError A × S
  exec_tx server attempt body s = begin (server.begin_fails attempt) server attempt body s

  -- The loop, at attempt `attempt` with `left` further retries. An attempt that failed by a
  -- deadlock is made again, unless the retries are used up or the context ends in the wait.
  unfoldable pub attempts : Server → ℕ → ℕ → Body S A → S → Result GoError A × S
  unfolding exec_tx
  attempts server attempt zero body s = exec_tx server attempt body s
  attempts server attempt (suc left) body s =
      let again = attempts server (suc attempt) left body s in
      let made = exec_tx server attempt body s in
      if deadlocked made.0
      then (if server.context_ends (suc attempt) then (err cancelled, s) else again)
      else made

  unfoldable pub with_tx : Server → Body S A → S → Result GoError A × S
  unfolding attempts
  with_tx server body s = attempts server 0 max_deadlock_retries body s

module _ {S : Type 0} where
  abbrev pub pure : {A : Type 0} → A → Body S A
  pure a answers s = (ok a, s)

  -- `if test { return e }`
  abbrev pub fail_if : Bool → GoError → Body S (Unit {0})
  fail_if true e answers s = (err e, s)
  fail_if false e answers s = (ok tt, s)

  -- `if err != nil { return f(err) }`
  abbrev pub on_error : {A : Type 0} → (GoError → GoError) → Body S A → Body S A
  on_error f m answers s = elim (m answers s).0 [
    | ok a ↦ m answers s
    | err e ↦ (err (f e), (m answers s).1)
  ]

  abbrev continue : {A B : Type 0} → Result GoError A → (A → Body S B) → Body S B
  continue (ok a) f answers s = f a answers s
  continue (err e) f answers s = (err e, s)

  infixl 5 ◌>>=◌ ◌>>◌
  abbrev pub ◌>>=◌ : {A B : Type 0} → Body S A → (A → Body S B) → Body S B
  ◌>>=◌ m f answers s = let (r, s') = m answers s in continue r f answers s'

  abbrev pub ◌>>◌ : {A B : Type 0} → Body S A → Body S B → Body S B
  m >> k = m >>= λ _. k
