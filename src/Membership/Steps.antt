-- ===== src/Membership/Steps.antt =====
-- What a successful change of membership did to the tables.
use code_intelegence.Base.{
  ◌<◌, String, ◌≡◌, ◌≢◌, Bool, true, false, none, some, arith, eq_iff, lookup, Option-cases, inl,
  inr, ◌⊎◌, ◌++◌, ◌∷◌, [],
}
use code_intelegence.Domain.Errors.{ok, err, GoError}
use code_intelegence.Domain.Roles.{role_owner, role_admin}
use code_intelegence.Postgres.Tx.{Answers}
use code_intelegence.Membership.Rows.{
  Db, MemberRow, ProjectMember, find_row, set_role, drop_rows, count_owner_rows,
}
use code_intelegence.Membership.Service.{update_role_tx, remove_tx, add_steps}

-- How UpdateRole's callback succeeds: the target's role `old` was no owner's or the actor is no
-- admin, and either nothing was to change, or an owner is not demoted, or another owner is left.
pub record RoleChanged (db : Db) (p u r actor_role : String) (t : MemberRow) (after : Db)
    : Type 0 where
  pub found : find_row p u db.members ≡ some t
  pub allowed : (actor_role ≡ role_admin) → (t.role ≢ role_owner)
  pub effect :
      (t.role ≡ r) × (after ≡ db)
      ⊎ (after ≡ record db { members = set_role p u r db.members })
        × ((t.role ≢ role_owner)
            ⊎ ((r ≡ role_owner) ⊎ (1 < count_owner_rows db.users p db.members)))

module _ (p u r : String) (actor : ProjectMember) (answers : Answers) (db after : Db) where
  update_role_found :
      (t : MemberRow) {x : ProjectMember}
      → find_row p u db.members ≡ some t
      → update_role_tx p u r actor answers db ≡ (ok x, after)
      → RoleChanged db p u r actor.role t after
  unfolding update_role_tx
  update_role_found t f h = record {
    found = f;
    allowed = λ a o. ground (arith, eq_iff actor.role role_admin, eq_iff t.role role_owner);
    effect = ground (arith, eq_iff t.role role_owner, eq_iff r role_owner, eq_iff t.role r);
  }

  pub update_role_tx_done :
      {x : ProjectMember}
      → update_role_tx p u r actor answers db ≡ (ok x, after)
      → (t : MemberRow) × RoleChanged db p u r actor.role t after
  unfolding update_role_tx
  update_role_tx_done h = elim (Option-cases (find_row p u db.members)) [
    | inl n ↦ ground arith
    | inr (t, f) ↦ (t, update_role_found t f h)
  ]

-- How Remove's callback succeeds.
pub record MemberRemoved (db : Db) (is_self : Bool) (p u actor_role : String) (t : MemberRow)
    (after : Db) : Type 0 where
  pub found : find_row p u db.members ≡ some t
  pub allowed : is_self ≡ false → actor_role ≡ role_admin → t.role ≢ role_owner
  pub effect : after ≡ record db { members = drop_rows p u db.members }
  pub spared : (t.role ≢ role_owner) ⊎ (1 < count_owner_rows db.users p db.members)

module _ (is_self : Bool) (p u : String) (actor : ProjectMember) (answers : Answers)
    (db after : Db) where
  remove_found :
      (t : MemberRow)
      → find_row p u db.members ≡ some t
      → remove_tx is_self p u actor answers db ≡ (ok tt, after)
      → MemberRemoved db is_self p u actor.role t after
  unfolding remove_tx
  remove_found t f h = record {
    found = f;
    allowed = λ s a o. ground (arith, eq_iff actor.role role_admin, eq_iff t.role role_owner);
    effect = ground (arith, eq_iff t.role role_owner);
    spared = ground (arith, eq_iff t.role role_owner);
  }

  pub remove_tx_done :
      remove_tx is_self p u actor answers db ≡ (ok tt, after)
      → (t : MemberRow) × MemberRemoved db is_self p u actor.role t after
  unfolding remove_tx
  remove_tx_done h = elim (Option-cases (find_row p u db.members)) [
    | inl n ↦ ground arith
    | inr (t, f) ↦ (t, remove_found t f h)
  ]

module _ (parsed : Bool) (p u r : String) (answers : Answers) (db after : Db) where
  -- How Add succeeds: the user was no member and is active, and the row is the only change.
  pub add_steps_done :
      {x : ProjectMember}
      → add_steps parsed p u r answers db ≡ (ok x, after)
      → (find_row p u db.members ≡ none)
        × (lookup u db.users ≡ some true)
        × (after ≡ record db {
          members = db.members ++ record { project_id = p; user_id = u; role = r } ∷ [];
        })
  unfolding add_steps
  add_steps_done h = (ground arith, ground arith, ground arith)

  -- A refused Add has written nothing.
  pub add_steps_failed :
      {e : GoError} → add_steps parsed p u r answers db ≡ (err e, after) → after ≡ db
  unfolding add_steps
  add_steps_failed h = ground arith
