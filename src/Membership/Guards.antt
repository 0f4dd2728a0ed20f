-- ===== src/Membership/Guards.antt =====
-- Who may change whose membership, what a refusal leaves, and which rows a change touches.
use code_intelegence.Base.{
  String, ◌≡◌, ◌≢◌, refl, true, false, Option, none, some, arith, inl, inr, ◌⊎◌, ◌==◌, List, [],
  ◌∷◌, Bool-cases, eq_of_==, eq_iff, if◌then◌else◌, ◌&&◌,
}
use code_intelegence.Domain.Errors.{AppError, GoError, Result, ok, err}
use code_intelegence.Domain.Roles.{role_owner, role_admin, role_known, role_sufficient}
use code_intelegence.Postgres.Tx.{Server, with_tx}
use code_intelegence.Postgres.Tx.Atomic.{with_tx_committed}
use code_intelegence.Membership.Rows.{
  Db, MemberRow, ProjectMember, find_row, drop_rows, db_member_to_domain,
}
use code_intelegence.Membership.Service.{
  unless, with_actor, app_result, validate_actor, check_update_role, check_remove, update_role_tx,
  remove_tx, update_role, remove,
}
use code_intelegence.Membership.Steps.{update_role_tx_done, remove_tx_done}

app_result_ok :
    {A : Type 0} (r : Result GoError A × Db) {x : A} {after : Db}
    → app_result r ≡ (ok x, after)
    → r ≡ (ok x, after)
app_result_ok (ok a, db) h = ground arith
app_result_ok (err e, db) h = ground arith

validate_actor_ok :
    (actor : Option ProjectMember) (p : String) {a : ProjectMember}
    → validate_actor actor p ≡ ok a
    → (actor ≡ some a) × (a.project_id ≡ p)
unfolding validate_actor
validate_actor_ok none p h = cc
validate_actor_ok (some b) p h = ground (arith, eq_iff b.project_id p)

with_actor_ok :
    {A : Type 0} (actor : Result AppError ProjectMember) (db : Db)
    (rest : ProjectMember → Result AppError A × Db) {x : A} {after : Db}
    → with_actor actor db rest ≡ (ok x, after)
    → (a : ProjectMember) × (actor ≡ ok a) × (rest a ≡ (ok x, after))
with_actor_ok (ok a) db rest h = (a, refl, h)
with_actor_ok (err e) db rest h = ground arith

unless_ok :
    {A : Type 0} (rejected : Option AppError) (db : Db) (rest : Result AppError A × Db) {x : A}
    {after : Db}
    → unless rejected db rest ≡ (ok x, after)
    → (rejected ≡ none) × (rest ≡ (ok x, after))
unless_ok none db rest h = (refl, h)
unless_ok (some e) db rest h = ground arith

check_update_role-none :
    (u r : String) (a : ProjectMember)
    → check_update_role u r a ≡ none
    → (role_known r ≡ true)
      × (a.user_id ≢ u)
      × (role_sufficient a.role role_admin ≡ true)
      × ((a.role ≢ role_admin) ⊎ (r ≢ role_owner))
unfolding check_update_role
check_update_role-none u r a h = (
  ground arith,
  ground (arith, eq_iff a.user_id u),
  ground arith,
  ground (arith, eq_iff a.role role_admin, eq_iff r role_owner),
)

-- An admin's limits on the new role and on the target, in one alternative.
limits :
    (actor_role r old : String)
    → (actor_role ≢ role_admin) ⊎ (r ≢ role_owner)
    → (actor_role ≡ role_admin → old ≢ role_owner)
    → (actor_role ≢ role_admin) ⊎ ((r ≢ role_owner) × (old ≢ role_owner))
limits actor_role r old (inl n) h = inl n
limits actor_role r old (inr n) h = elim (Bool-cases (actor_role == role_admin)) [
  | inl e ↦ inr (n, h (eq_of_== _ _ e))
  | inr e ↦ inl (λ k. ground (arith, eq_iff actor_role role_admin))
]

module _ (server : Server) (p u : String) (actor : Option ProjectMember) (r : String)
    (db : Db) where
  -- A successful UpdateRole was made by another member of the project who is an admin or owner,
  -- and an admin neither made an owner nor changed one.
  pub update_role_authorised :
      {x : ProjectMember} {after : Db}
      → update_role server p u actor r db ≡ (ok x, after)
      → (a : ProjectMember) × (t : MemberRow) × (actor ≡ some a)
        × (a.project_id ≡ p)
        × (a.user_id ≢ u)
        × (role_sufficient a.role role_admin ≡ true)
        × (find_row p u db.members ≡ some t)
        × ((a.role ≢ role_admin) ⊎ ((r ≢ role_owner) × (t.role ≢ role_owner)))
  unfolding update_role
  update_role_authorised {x} {after} h =
      let (a, valid, rest) = with_actor_ok (validate_actor actor p) db _ h in
      let (here, same) = validate_actor_ok actor p valid in
      let (checked, done) = unless_ok (check_update_role u r a) db _ rest in
      let (known, another, rank, promote) = check_update_role-none u r a checked in
      let body = update_role_tx p u r a in
      let (n, at) =
        with_tx_committed server body db (app_result_ok (with_tx server body db) done) in
      let (t, c) = update_role_tx_done p u r a (server.query_fails n) db after at in
      (a, t, here, same, another, rank, c.found, limits a.role r t.role promote c.allowed)

-- The answer of a query for the row of one key after a removal.
pub find_row-drop_rows :
    (p u q v : String) (ms : List MemberRow)
    → find_row q v (drop_rows p u ms) ≡ (if p == q && u == v then none else find_row q v ms)
unfolding find_row drop_rows
find_row-drop_rows p u q v [] = ground arith
find_row-drop_rows p u q v (m ∷ ms) = ground (
  arith,
  find_row-drop_rows p u q v ms,
  eq_iff m.project_id p,
  eq_iff m.user_id u,
  eq_iff m.project_id q,
  eq_iff m.user_id v,
  eq_iff p q,
  eq_iff u v,
)

check_remove-none :
    (u : String) (a t : ProjectMember)
    → check_remove (a.user_id == u) a ≡ none
    → ((a.user_id == u) ≡ false → a.role ≡ role_admin → t.role ≢ role_owner)
    → (a.user_id ≡ u)
      ⊎ (role_sufficient a.role role_admin ≡ true) × ((a.role ≢ role_admin) ⊎ (t.role ≢ role_owner))
unfolding check_remove
check_remove-none u a t h allowed = elim (Bool-cases (a.user_id == u)) [
  | inl e ↦ inl (eq_of_== _ _ e)
  | inr e ↦ inr (
    ground arith,
    elim (Bool-cases (a.role == role_admin)) [
      | inl k ↦ inr (allowed e (eq_of_== _ _ k))
      | inr k ↦ inl (λ s. ground (arith, eq_iff a.role role_admin))
    ],
  )
]

module _ (server : Server) (p u : String) (actor : Option ProjectMember) (db : Db)
    (q v : String) where
  -- After a successful Remove the target is no member of the project and every other membership
  -- is as it was; the remover belongs to the project, and is the target itself or an admin or owner
  -- who, as an admin, has not removed an owner.
  pub remove_lem :
      {after : Db}
      → remove server p u actor db ≡ (ok tt, after)
      → (a : ProjectMember) × (t : MemberRow) × (actor ≡ some a)
        × (a.project_id ≡ p)
        × (find_row p u db.members ≡ some t)
        × (find_row q v after.members
            ≡ (if p == q && u == v then none else find_row q v db.members))
        × ((a.user_id ≡ u)
            ⊎ (role_sufficient a.role role_admin ≡ true)
              × ((a.role ≢ role_admin) ⊎ (t.role ≢ role_owner)))
  unfolding remove
  remove_lem {after} h =
      let (a, valid, rest) = with_actor_ok (validate_actor actor p) db _ h in
      let (here, same) = validate_actor_ok actor p valid in
      let is_self = a.user_id == u in
      let (checked, done) = unless_ok (check_remove is_self a) db _ rest in
      let body = remove_tx is_self p u a in
      let (n, at) =
        with_tx_committed server body db (app_result_ok (with_tx server body db) done) in
      let (t, c) = remove_tx_done is_self p u a (server.query_fails n) db after at in
      (
        a,
        t,
        here,
        same,
        c.found,
        rw c.effect (find_row-drop_rows p u q v db.members),
        check_remove-none u a (db_member_to_domain t) checked c.allowed,
      )
