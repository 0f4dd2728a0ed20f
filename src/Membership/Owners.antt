-- ===== src/Membership/Owners.antt =====
-- The ownership of a project over sequences of requests to
-- backend-api/internal/membership/service.go.
use mathlib.Core.Path.{subst, sym}
use code_intelegence.Base.{
  ◌<◌, String, ◌≡◌, ◌≢◌, refl, Bool, Option, none, some, List, [], ◌∷◌, arith, inl, inr, ◌⊎◌, ◌==◌,
  Bool-cases, eq_of_==, eq_iff,
}
use code_intelegence.Domain.Errors.{AppError, GoError, Result, ok, err}
use code_intelegence.Domain.Roles.{role_owner}
use code_intelegence.Postgres.Tx.{Server, Answers, with_tx}
use code_intelegence.Postgres.Tx.Atomic.{with_tx-keeps}
use code_intelegence.Membership.Rows.{
  Db, MemberRow, ProjectMember, find_row, set_role, drop_rows, count_owner_rows,
}
use code_intelegence.Membership.Counts.{
  Unique, Spared, find_row-matches, set_role-Unique, drop_rows-Unique, append-Unique,
  count-set_role, count-drop_rows, count-set_role-Spared, count-drop_rows-Spared, count-promote,
  count-append,
}
use code_intelegence.Membership.Service.{
  unless, with_actor, app_result, validate_actor, check_update_role, check_add, check_remove,
  update_role_tx, add_steps, remove_tx, update_role, add, remove,
}
use code_intelegence.Membership.Steps.{
  RoleChanged, MemberRemoved, update_role_tx_done, remove_tx_done, add_steps_done, add_steps_failed,
}

-- The member keys are unique, and project `q` has an active owner.
pub record IsOwned (q : String) (db : Db) : Type 0 where
  pub keys : Unique db.members
  pub owned : 0 < count_owner_rows db.users q db.members

module _ (P : Db → Type 0) (db : Db) (here : P db) where
  unless-keeps :
      {A : Type 0} (rejected : Option AppError) (rest : Result AppError A × Db)
      → P rest.1
      → P (unless rejected db rest).1
  unless-keeps (some e) rest h = here
  unless-keeps none rest h = h

  with_actor-keeps :
      {A : Type 0} (actor : Result AppError ProjectMember)
      (rest : ProjectMember → Result AppError A × Db)
      → ((a : ProjectMember) → P (rest a).1)
      → P (with_actor actor db rest).1
  with_actor-keeps (err e) rest h = here
  with_actor-keeps (ok a) rest h = h a

  app_result-keeps : {A : Type 0} (r : Result _ A × Db) → P r.1 → P (app_result r).1
  app_result-keeps (ok a, after) h = h
  app_result-keeps (err e, after) h = h

module _ (q p u : String) (db : Db) (sound : IsOwned q db) where
  -- The row at the key is no owner's row of `q`, or `q` has a second owner.
  Spared-or_second :
      (t : MemberRow)
      → find_row p u db.members ≡ some t
      → (t.role ≢ role_owner) ⊎ (1 < count_owner_rows db.users p db.members)
      → Spared db.users q p u (find_row p u db.members)
        ⊎ (1 < count_owner_rows db.users q db.members)
  Spared-or_second t f (inl n) = inl (rw f (inl n))
  Spared-or_second t f (inr n) = elim (Bool-cases (p == q)) [
    | inl e ↦ inr (subst (λ x. 1 < count_owner_rows db.users x db.members) (eq_of_== p q e) n)
    | inr e ↦ inl (
        rw f (
          inr λ k.
            let same : t.project_id ≡ p = (find_row-matches p u db.members t f).0 in
            ground (arith, eq_iff p q)))
  ]

  set_role-Spared :
      (r : String)
      → Spared db.users q p u (find_row p u db.members)
        ⊎ (1 < count_owner_rows db.users q db.members)
      → 0 < count_owner_rows db.users q (set_role p u r db.members)
  set_role-Spared r (inl k) =
      omega (arith, count-set_role-Spared db.users q p u r db.members sound.keys k, sound.owned)
  set_role-Spared r (inr k) = omega (arith, count-set_role db.users q p u r db.members sound.keys)

  drop_rows-Spared :
      Spared db.users q p u (find_row p u db.members) ⊎ (1 < count_owner_rows db.users q db.members)
      → 0 < count_owner_rows db.users q (drop_rows p u db.members)
  drop_rows-Spared (inl k) =
      omega (arith, count-drop_rows-Spared db.users q p u db.members sound.keys k, sound.owned)
  drop_rows-Spared (inr k) = omega (arith, count-drop_rows db.users q p u db.members sound.keys)

  set_role_owned :
      (r : String) (t : MemberRow)
      → find_row p u db.members ≡ some t
      → (t.role ≢ role_owner) ⊎ ((r ≡ role_owner) ⊎ (1 < count_owner_rows db.users p db.members))
      → 0 < count_owner_rows db.users q (set_role p u r db.members)
  set_role_owned r t f (inl n) = set_role-Spared r (Spared-or_second t f (inl n))
  set_role_owned r t f (inr (inl e)) =
      rw e (omega (arith, count-promote db.users q p u db.members, sound.owned))
  set_role_owned r t f (inr (inr n)) = set_role-Spared r (Spared-or_second t f (inr n))

  role_changed :
      (r actor_role : String) (t : MemberRow) (after : Db)
      → RoleChanged db p u r actor_role t after
      → IsOwned q after
  role_changed r actor_role t after c = elim c.effect [
    | inl (same, e) ↦ subst (IsOwned q) (sym e) sound
    | inr (e, why) ↦ subst (IsOwned q) (sym e) (record {
      keys = set_role-Unique p u r db.members sound.keys;
      owned = set_role_owned r t c.found why;
    })
  ]

  member_removed :
      (is_self : Bool) (actor_role : String) (t : MemberRow) (after : Db)
      → MemberRemoved db is_self p u actor_role t after
      → IsOwned q after
  member_removed is_self actor_role t after c = subst (IsOwned q) (sym c.effect) (record {
    keys = drop_rows-Unique p u db.members sound.keys;
    owned = drop_rows-Spared (Spared-or_second t c.found c.spared);
  })

  member_added :
      (parsed : Bool) (r : String) (answers : Answers) (x : Result GoError ProjectMember × Db)
      → add_steps parsed p u r answers db ≡ x
      → IsOwned q x.1
  member_added parsed r answers (err e, after) h =
      subst (IsOwned q) (sym (add_steps_failed parsed p u r answers db after h)) sound
  member_added parsed r answers (ok x, after) h =
      let (absent, active, e) = add_steps_done parsed p u r answers db after h in
      subst (IsOwned q) (sym e) (record {
        keys = append-Unique db.members _ absent sound.keys;
        owned = omega (
          arith,
          count-append db.users q p u (record { project_id = p; user_id = u; role = r }) db.members,
          sound.owned,
        );
      })

module _ (server : Server) (p u : String) (actor : Option ProjectMember) (q : String) (db : Db)
    (sound : IsOwned q db) where
  update_role-IsOwned : (r : String) → IsOwned q (update_role server p u actor r db).1
  unfolding update_role
  update_role-IsOwned r = with_actor-keeps (IsOwned q) db sound (validate_actor actor p) _ λ a.
      unless-keeps (IsOwned q) db sound (check_update_role u r a) _ (
        app_result-keeps (IsOwned q) db sound (with_tx server (update_role_tx p u r a) db) (
          with_tx-keeps server (update_role_tx p u r a) db (IsOwned q) sound λ n x after h.
            let (t, c) = update_role_tx_done p u r a (server.query_fails n) db after h in
            role_changed q p u db sound r a.role t after c))

  remove-IsOwned : IsOwned q (remove server p u actor db).1
  unfolding remove
  remove-IsOwned = with_actor-keeps (IsOwned q) db sound (validate_actor actor p) _ λ a.
      unless-keeps (IsOwned q) db sound (check_remove (a.user_id == u) a) _ (
        app_result-keeps (IsOwned q) db sound (with_tx server (remove_tx (a.user_id == u) p u a) db)
          (with_tx-keeps server (remove_tx (a.user_id == u) p u a) db (IsOwned q) sound
            λ n x after h.
              let (t, c) =
                remove_tx_done (a.user_id == u) p u a (server.query_fails n) db after h in
              member_removed q p u db sound (a.user_id == u) a.role t after c))

  add-IsOwned :
      (parses : String → Bool) (r : String) → IsOwned q (add server p u actor parses r db).1
  unfolding add
  add-IsOwned parses r = with_actor-keeps (IsOwned q) db sound (validate_actor actor p) _ λ a.
      unless-keeps (IsOwned q) db sound (check_add r a) _ (
        app_result-keeps (IsOwned q) db sound
          (add_steps (parses a.user_id) p u r (server.query_fails 0) db)
          (member_added q p u db sound (parses a.user_id) r (server.query_fails 0) _ refl))

-- One request: the server as it answers that time, the project, the target and the actor.
pub data Request : Type 0 where
  update : Server → String → String → Option ProjectMember → String → Request
  invite : Server → String → String → Option ProjectMember → (String → Bool) → String → Request
  expel : Server → String → String → Option ProjectMember → Request

pub serve : Request → Db → Db
serve (update server p u actor r) db = (update_role server p u actor r db).1
serve (invite server p u actor parses r) db = (add server p u actor parses r db).1
serve (expel server p u actor) db = (remove server p u actor db).1

pub serve_all : List Request → Db → Db
unfolding serve
serve_all [] db = db
serve_all (x ∷ xs) db = serve_all xs (serve x db)

serve-IsOwned : (q : String) (x : Request) (db : Db) → IsOwned q db → IsOwned q (serve x db)
unfolding serve
serve-IsOwned q (update server p u actor r) db h = update_role-IsOwned server p u actor q db h r
serve-IsOwned q (invite server p u actor parses r) db h =
    add-IsOwned server p u actor q db h parses r
serve-IsOwned q (expel server p u actor) db h = remove-IsOwned server p u actor q db h

-- A project with an active owner, in tables whose member keys are unique, still has one, and the
-- keys are still unique, after any sequence of UpdateRole, Add and Remove requests on any projects
-- by any actors, whichever database calls fail.
pub serve_all-IsOwned :
    (q : String) (requests : List Request) (db : Db)
    → IsOwned q db
    → IsOwned q (serve_all requests db)
unfolding serve_all
serve_all-IsOwned q [] db h = h
serve_all-IsOwned q (x ∷ xs) db h = serve_all-IsOwned q xs (serve x db) (serve-IsOwned q x db h)
