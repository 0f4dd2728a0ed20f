-- ===== src/Examples/Transactions.antt =====
-- Transactions over a table of numbers, one that meets two deadlocks and one that fails to commit.
use code_intelegence.Base.{
  ℕ, zero, suc, ◌<◌, String, ◌≡◌, refl, true, false, Option, none, some, List, [], ◌∷◌, arith, ◌==◌,
  ◌⊎◌, lookup, length,
}
use code_intelegence.Domain.Errors.{GoError, deadlock, ok}
use code_intelegence.Postgres.Tx.{
  Server, healthy, Body, query, exec_tx, deadlocked, with_tx, max_deadlock_retries,
}
use code_intelegence.Postgres.Tx.Atomic.{Settled, with_tx_atomic}
use code_intelegence.Postgres.Tx.Retry.{with_tx_retries}
use code_intelegence.Jobs.Snapshots.{
  IndexSnapshot, Snapshots, building, active, on_branch, activate_snapshot_tx,
}
use code_intelegence.Jobs.Snapshots.Activation.{activated_alone}

-- Deadlocks in the attempts 0 and 1.
abbrev congestion : ℕ → String → Option GoError
congestion zero name = some deadlock
congestion (suc zero) name = some deadlock
congestion (suc (suc n)) name = none

abbrev congested : Server
congested = record healthy { query_fails = congestion }

abbrev add_one : Body (List ℕ) ℕ
add_one = query "Insert" (λ xs. (ok (length xs), 7 ∷ xs))

with_tx_atomic_example :
    Settled congested add_one [] 0 max_deadlock_retries (with_tx congested add_one [])
with_tx_atomic_example = with_tx_atomic congested add_one []

first_two_deadlocked : (i : ℕ) → i < 2 → deadlocked (exec_tx congested i add_one []).0 ≡ true
unfolding exec_tx
first_two_deadlocked zero h = refl
first_two_deadlocked (suc zero) h = refl
first_two_deadlocked (suc (suc n)) h = absurd (omega arith)

third_settled : deadlocked (exec_tx congested 2 add_one []).0 ≡ false
unfolding exec_tx
third_settled = refl

with_tx_retries_example : with_tx congested add_one [] ≡ exec_tx congested 2 add_one []
with_tx_retries_example =
    with_tx_retries congested add_one [] 2 (omega arith) first_two_deadlocked (λ _ _. refl)
      third_settled

abbrev old_snapshot : IndexSnapshot
old_snapshot = record {
  project_id = "p";
  branch = "main";
  embedding_version_id = "v";
  git_commit = "c0";
  is_active = true;
  status = active;
}

abbrev next_snapshot : IndexSnapshot
next_snapshot = record {
  project_id = "p";
  branch = "main";
  embedding_version_id = "v";
  git_commit = "c1";
  is_active = false;
  status = building;
}

abbrev snapshots : Snapshots
snapshots = ("s0", old_snapshot) ∷ ("s1", next_snapshot) ∷ []

abbrev switched : Snapshots
switched =
    ("s0", record old_snapshot { is_active = false })
    ∷ ("s1", record next_snapshot { is_active = true; status = active })
    ∷ []

activates : activate_snapshot_tx healthy "p" "main" "s1" snapshots ≡ (ok tt, switched)
unfolding activate_snapshot_tx exec_tx code_intelegence.Jobs.Snapshots.activate_steps
    code_intelegence.Jobs.Snapshots.activate_snapshot
    code_intelegence.Jobs.Snapshots.deactivate_active_snapshot
activates = refl

old_there : lookup "s0" snapshots ≡ some old_snapshot
unfolding lookup
old_there = refl

new_there : lookup "s1" snapshots ≡ some next_snapshot
unfolding lookup
new_there = refl

activated_alone_example :
    (now : IndexSnapshot) × (lookup "s0" switched ≡ some now)
    × ((on_branch "p" "main" old_snapshot ≡ true) × (now.is_active ≡ ("s0" == "s1"))
        ⊎ (on_branch "p" "main" old_snapshot ≡ false) × (now ≡ old_snapshot))
activated_alone_example =
    activated_alone "p" "main" healthy "s1" "s0" snapshots next_snapshot old_snapshot activates
      new_there refl old_there
