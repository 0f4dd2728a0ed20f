-- ===== src/Access/Users.antt =====
-- Which users get past RequireProjectRole.
use code_intelegence.Base.{
  String, ◌≡◌, refl, Bool, true, false, Option, none, some, List, arith, Bool-cases, inl, inr, ◌⊎◌,
}
use code_intelegence.Domain.Errors.{GoError, Result, ok, err, is_no_rows, err_internal}
use code_intelegence.Domain.Roles.{role_owner, role_sufficient, platform_role_admin}
use code_intelegence.Membership.Rows.{MemberRow, ProjectMember, db_member_to_domain}
use code_intelegence.Access.{
  Identity, Answers, refused, admitted, check_project_role, for_user, as_owner, as_member,
  asked_admin, is_platform_admin, member_of, project_not_found,
}
use code_intelegence.Access.Rights.{for_identity_admitted}

module _ (db : Answers) (min_role p : String) (id : Identity) where
  as_owner_admitted :
      (r : Result GoError (Unit {0})) (u : String) (loaded : Option (List String))
      {m : ProjectMember} {roles : Option (List String)}
      → as_owner r p u loaded ≡ admitted m roles
      → (r ≡ ok tt) × (m ≡ member_of p u role_owner)
  as_owner_admitted (err e) u loaded h = ground arith
  as_owner_admitted (ok t) u loaded h = (refl, ground arith)

  as_member_admitted :
      (r : Result GoError MemberRow) (loaded : Option (List String)) {m : ProjectMember}
      {roles : Option (List String)}
      → as_member r min_role loaded ≡ admitted m roles
      → (row : MemberRow) × (r ≡ ok row)
        × (role_sufficient row.role min_role ≡ true)
        × (m ≡ db_member_to_domain row)
  as_member_admitted (err e) loaded h = ground arith
  as_member_admitted (ok row) loaded h = (row, refl, ground arith, ground arith)

  asked_admin-true :
      (loaded : Option (List String)) (r : Result GoError Bool)
      → asked_admin loaded r ≡ true
      → (loaded ≡ none) × (r ≡ ok true)
  asked_admin-true none (ok b) h = (refl, ground arith)
  asked_admin-true none (err e) h = cc
  asked_admin-true (some rs) r h = cc

  -- A user gets past the middleware only as a platform admin, for a project that exists and as its
  -- owner, or as a member of the project with a sufficient role, and then with that membership.
  pub user_admitted :
      (u : String) {m : ProjectMember} {roles : Option (List String)}
      → id.user ≡ some u
      → check_project_role db min_role p id ≡ admitted m roles
      → ((is_platform_admin id.platform_roles ≡ true)
            ⊎ (id.platform_roles ≡ none) × (db.has_platform_role u platform_role_admin ≡ ok true))
          × (db.get_project p ≡ ok tt)
          × (m ≡ member_of p u role_owner)
        ⊎ (row : MemberRow) × (db.get_project_member p u ≡ ok row)
          × (role_sufficient row.role min_role ≡ true)
          × (m ≡ db_member_to_domain row)
  user_admitted u {m} {roles} user h =
      let passed : for_user db min_role p u id.platform_roles ≡ admitted m roles =
        rw user at (for_identity_admitted db min_role p id h) in
      elim (Bool-cases (db.is_uuid u)) [
        | inr n ↦ let no : refused err_internal ≡ admitted m roles = rw n at passed in ground arith
        | inl y ↦ elim (Bool-cases (is_platform_admin id.platform_roles)) [
          | inl a ↦
              let (exists, same) =
                as_owner_admitted (db.get_project p) u id.platform_roles (rw (y, a) at passed) in
              inl (inl a, exists, same)
          | inr a ↦
              elim (Bool-cases
                (asked_admin id.platform_roles (db.has_platform_role u platform_role_admin))) [
                  | inl b ↦
                      let (exists, same) =
                        as_owner_admitted (db.get_project p) u _ (rw (y, a, b) at passed) in
                      inl (
                        inr (
                            asked_admin-true id.platform_roles
                              (db.has_platform_role u platform_role_admin) b),
                        exists,
                        same,
                      )
                  | inr b ↦ inr (
                      as_member_admitted (db.get_project_member p u) id.platform_roles
                        (rw (y, a, b) at passed))
                ]
        ]
      ]

  -- While there is a database, a user with a valid id who is no platform admin and no member of the
  -- project gets the same answer for every project id,
  -- whether or not there is such a project: that it was not found.
  pub stranger_sees_not_found :
      (u : String) (e : GoError)
      → id.user ≡ some u
      → db.connected ≡ true
      → db.is_uuid u ≡ true
      → is_platform_admin id.platform_roles ≡ false
      → asked_admin id.platform_roles (db.has_platform_role u platform_role_admin) ≡ false
      → db.get_project_member p u ≡ err e
      → is_no_rows e ≡ true
      → check_project_role db min_role p id ≡ refused project_not_found
  unfolding check_project_role
  stranger_sees_not_found u e user up valid plain unasked absent none_found =
      rw (user, up, valid, plain, unasked, absent, none_found) (ground arith)
