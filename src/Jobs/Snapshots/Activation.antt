-- ===== src/Jobs/Snapshots/Activation.antt =====
-- What the activation of a snapshot does to the snapshots of its branch and to the others.
use code_intelegence.Base.{
  String, ◌≡◌, refl, true, false, ◌&&◌, some, [], ◌∷◌, arith, ◌==◌, lookup, Bool-cases, inl, inr,
  ◌⊎◌, if◌then◌else◌, eq_of_==,
}
use mathlib.Core.Path.{subst, sym, ◌∙◌}
use mathlib.Core.Option as Option
use code_intelegence.Domain.Errors.{ok}
use code_intelegence.Postgres.Tx.{Server, exec_tx}
use code_intelegence.Jobs.Snapshots.{
  Snapshots, IndexSnapshot, active, on_branch, deactivate_active_snapshot, activate_snapshot,
  activate_steps, activate_snapshot_tx,
}

module _ (p b : String) where
  abbrev deactivated : IndexSnapshot → IndexSnapshot
  deactivated s = if on_branch p b s && s.is_active then record s { is_active = false } else s

  abbrev activated : String → String → IndexSnapshot → IndexSnapshot
  activated id j s = if j == id then record s { is_active = true; status = active } else s

  lookup-deactivate :
      (j : String) (snaps : Snapshots)
      → lookup j (deactivate_active_snapshot p b snaps) ≡ Option.map deactivated (lookup j snaps)
  unfolding lookup deactivate_active_snapshot
  lookup-deactivate j [] = refl
  lookup-deactivate j ((k, s) ∷ snaps) = ground (arith, lookup-deactivate j snaps)

  lookup-activate :
      (id j : String) (snaps : Snapshots)
      → lookup j (activate_snapshot id snaps) ≡ Option.map (activated id j) (lookup j snaps)
  unfolding lookup activate_snapshot
  lookup-activate id j [] = refl
  lookup-activate id j ((k, s) ∷ snaps) = elim (Bool-cases (k == j)) [
    | inl e ↦ rw (e, eq_of_== k j e) refl
    | inr e ↦ rw e (lookup-activate id j snaps)
  ]

  tx_done :
      (server : Server) (id : String) (snaps : Snapshots) {after : Snapshots}
      → activate_snapshot_tx server p b id snaps ≡ (ok tt, after)
      → after ≡ activate_snapshot id (deactivate_active_snapshot p b snaps)
  unfolding activate_snapshot_tx activate_steps exec_tx
  tx_done server id snaps h = ground arith

  found_after :
      (server : Server) (id j : String) (snaps : Snapshots) (t : IndexSnapshot) {after : Snapshots}
      → activate_snapshot_tx server p b id snaps ≡ (ok tt, after)
      → lookup j snaps ≡ some t
      → lookup j after ≡ some (activated id j (deactivated t))
  found_after server id j snaps t h there =
      rw
        (
          tx_done server id snaps h,
          lookup-activate id j (deactivate_active_snapshot p b snaps),
          lookup-deactivate j snaps,
          there,
        )
        refl

  activated_is_active :
      (id j : String) (s : IndexSnapshot)
      → on_branch p b s ≡ true
      → (activated id j (deactivated s)).is_active ≡ (j == id)
  activated_is_active id j s h = ground arith

  -- After ActivateSnapshotTx has succeeded for a snapshot of the branch, every row is still there: on
  -- the branch, exactly that snapshot is active; on other branches and in other projects, the row is
  -- as it was.
  pub activated_alone :
      (server : Server) (id j : String) (snaps : Snapshots) (s t : IndexSnapshot)
      {after : Snapshots}
      → activate_snapshot_tx server p b id snaps ≡ (ok tt, after)
      → lookup id snaps ≡ some s
      → on_branch p b s ≡ true
      → lookup j snaps ≡ some t
      → (now : IndexSnapshot) × (lookup j after ≡ some now)
        × ((on_branch p b t ≡ true) × (now.is_active ≡ (j == id))
            ⊎ (on_branch p b t ≡ false) × (now ≡ t))
  activated_alone server id j snaps s t h here branch there =
      let found = found_after server id j snaps t h there in
      (
        activated id j (deactivated t),
        found,
        elim (Bool-cases (on_branch p b t)) [
          | inl e ↦ inl (e, activated_is_active id j t e)
          | inr e ↦
              let another : (j == id) ≡ false = elim (Bool-cases (j == id)) [
                | inr n ↦ n
                | inl y ↦
                    let both : some t ≡ some s =
                      sym there
                      ∙ subst (λ k. lookup k snaps ≡ some s) (sym (eq_of_== j id y)) here in
                    let same : t ≡ s = ground arith in
                    let branch_t : on_branch p b t ≡ true = rw same branch in cc
              ] in
              inr (e, rw (another, e) refl)
        ],
      )
