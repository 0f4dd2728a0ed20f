-- ===== src/Access/Rights.antt =====
-- Which API keys get past RequireProjectRole.
use code_intelegence.Base.{
  ℕ, ◌≤◌, String, ◌≡◌, refl, true, Option, none, some, List, arith, Option-cases, sym, ap, ◌∙◌, inl,
  inr, ◌⊎◌,
}
use code_intelegence.Domain.Errors.{ok, err_unauthorized}
use code_intelegence.Domain.Roles.{
  role_sufficient, key_role_rank, key_role_sufficient, membership_role_to_key_role,
  key_type_project, key_type_personal,
}
use code_intelegence.Membership.Rows.{MemberRow, ProjectMember, find_row}
use code_intelegence.ApiKeys.Rows.{ApiKey, ApiKeys, is_live}
use code_intelegence.Access.{
  Identity, Answers, refused, admitted, check_project_role, for_key, mapped_role, project_access,
  for_identity,
}
use code_intelegence.Access.Grants.{Listed, project_access-Grants, mapped_role_sufficient}

module _ (db : Answers) (min_role p : String) (id : Identity) where
  pub for_identity_admitted :
      {m : ProjectMember} {roles : Option (List String)}
      → check_project_role db min_role p id ≡ admitted m roles
      → for_identity db min_role p id ≡ admitted m roles
  unfolding check_project_role
  for_identity_admitted h = ground arith

  by_key_role_admitted :
      {m : ProjectMember} {roles : Option (List String)} (minimum : Option String) (hash : String)
      (loaded : Option (List String))
      → for_key db minimum hash p loaded ≡ admitted m roles
      → (min_key_role : String) × (minimum ≡ some min_key_role)
        × (db.check_api_key_project_access hash p ≡ ok m.role)
        × (key_role_sufficient m.role min_key_role ≡ true)
  by_key_role_admitted none hash loaded h = ground arith
  by_key_role_admitted (some min_key_role) hash loaded h =
      (min_key_role, refl, ground arith, ground arith)

  -- When the view answers from the tables, an API key gets past the middleware only if its hash is that of a live
  -- key of the project, or a live personal key of a member of the project whose membership satisfies
  -- the requirement itself, and the role that it acts with exceeds neither the key's role nor what
  -- the membership maps to.
  pub key_admitted :
      (now : ℕ) (members : List MemberRow) (keys : ApiKeys) {m : ProjectMember}
      {roles : Option (List String)}
      → id.user ≡ none
      → ((hash : String)
          → db.check_api_key_project_access hash p ≡ project_access now members keys hash p)
      → check_project_role db min_role p id ≡ admitted m roles
      → (k : ApiKey) × Listed k keys
        × (id.key_hash ≡ some k.key_hash)
        × (is_live now k ≡ true)
        × ((k.key_type ≡ key_type_project) × (k.project_id ≡ some p) × (k.role ≡ m.role)
            ⊎ (u : String) × (row : MemberRow) × (k.key_type ≡ key_type_personal)
              × (k.created_by ≡ some u)
              × (find_row p u members ≡ some row)
              × (role_sufficient row.role min_role ≡ true)
              × (key_role_rank m.role ≤ key_role_rank k.role)
              × (key_role_rank m.role ≤ key_role_rank (mapped_role row.role)))
  key_admitted now members keys {m} {roles} anonymous view h = elim (Option-cases id.key_hash) [
    | inl n ↦
        let no : refused err_unauthorized ≡ admitted m roles =
          rw (anonymous, n) at (for_identity_admitted h) in
        absurd (ground arith)
    | inr (hash, given) ↦
        let passed : for_key db (membership_role_to_key_role min_role) hash p id.platform_roles
            ≡ admitted m roles =
          rw (anonymous, given) at (for_identity_admitted h) in
        let (min_key_role, minimum, answer, sufficient) =
          by_key_role_admitted (membership_role_to_key_role min_role) hash id.platform_roles
            passed in
        let (k, listed, same, grants) =
          project_access-Grants now members p keys hash m.role (sym (view hash) ∙ answer) in
        (
          k,
          listed,
          given ∙ ap some (sym same),
          grants.0,
          elim grants.1 [
            | inl g ↦ inl g
            | inr (u, row, t, owner, found, by_key, by_member) ↦ inr (
              u,
              row,
              t,
              owner,
              found,
              mapped_role_sufficient row.role m.role min_role min_key_role minimum sufficient
                  by_member,
              by_key,
              by_member,
            )
          ],
        )
  ]
