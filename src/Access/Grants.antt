-- ===== src/Access/Grants.antt =====
-- The roles that the view gives API keys, against the keys' own roles and their owners' memberships.
use mathlib.Core.Path.{subst}
use code_intelegence.Base.{
  ℕ, ◌≤◌, String, ◌≡◌, refl, true, Option, none, some, List, [], ◌∷◌, arith, eq_iff, ◌==◌,
  Option-cases, Bool-cases, inl, inr, ◌⊎◌, eq_of_==,
}
use code_intelegence.Domain.Errors.{ok}
use code_intelegence.Domain.Roles.{
  role_owner, role_admin, role_member, role_sufficient, key_role_rank, key_role_read,
  key_role_write, key_role_sufficient, membership_role_to_key_role, key_type_project,
  key_type_personal,
}
use code_intelegence.Domain.Roles.Order.{key_role_cases}
use code_intelegence.Membership.Rows.{MemberRow, find_row}
use code_intelegence.ApiKeys.Rows.{ApiKey, ApiKeys, is_live}
use code_intelegence.Access.{
  mapped_role, effective_role, project_access, personal_role, owned_role, project_role,
}

abbrev pub Listed : ApiKey → ApiKeys → Type 0
Listed k [] = ⊥
Listed k ((id, w) ∷ keys) = (w ≡ k) ⊎ Listed k keys

write_rank : key_role_rank key_role_write ≡ 2
unfolding key_role_rank
write_rank = refl

read_rank : key_role_rank key_role_read ≡ 1
unfolding key_role_rank
read_rank = refl

module _ (now : ℕ) (members : List MemberRow) (p : String) where
  -- What gives a key its role in the project: it is a live key of the project, with its own role, or
  -- a live personal key of a member, with a role that neither the key nor the membership exceeds.
  abbrev pub Grants : ApiKey → String → Type 0
  Grants k role =
      (is_live now k ≡ true)
      × ((k.key_type ≡ key_type_project) × (k.project_id ≡ some p) × (k.role ≡ role)
          ⊎ (u : String) × (m : MemberRow) × (k.key_type ≡ key_type_personal)
            × (k.created_by ≡ some u)
            × (find_row p u members ≡ some m)
            × (key_role_rank role ≤ key_role_rank k.role)
            × (key_role_rank role ≤ key_role_rank (mapped_role m.role)))

  personal_role_le :
      (key_role role : String) (m : MemberRow)
      → personal_role key_role (some m) ≡ some role
      → (key_role_rank role ≤ key_role_rank key_role)
        × (key_role_rank role ≤ key_role_rank (mapped_role m.role))
  personal_role_le key_role role m h = ground (arith, write_rank, read_rank)

  owned_role-some :
      (k : ApiKey) (owner : Option String) (role : String)
      → owned_role members k owner p ≡ some role
      → (u : String) × (m : MemberRow) × (owner ≡ some u)
        × (find_row p u members ≡ some m)
        × (personal_role k.role (some m) ≡ some role)
  owned_role-some k none role h = cc
  owned_role-some k (some u) role h = elim (Option-cases (find_row p u members)) [
    | inl n ↦ let none_is : none ≡ some role = rw n at h in cc
    | inr (m, f) ↦ (u, m, refl, f, rw f at h)
  ]

  project_role-some :
      (k : ApiKey) (owner : Option String) (role : String)
      → project_role k owner p ≡ some role
      → (owner ≡ some p) × (k.role ≡ role)
  project_role-some k none role h = cc
  project_role-some k (some o) role h = ground (arith, eq_iff o p)

  effective_role-Grants :
      (k : ApiKey) (role : String) → effective_role now members k p ≡ some role → Grants k role
  unfolding effective_role
  effective_role-Grants k role h =
      let live : is_live now k ≡ true = ground arith in
      elim (Bool-cases (k.key_type == key_type_project)) [
        | inl t ↦
            let of_project : project_role k k.project_id p ≡ some role = rw (live, t) at h in
            let (owner, same) = project_role-some k k.project_id role of_project in
            (live, inl (eq_of_== _ _ t, owner, same))
        | inr n ↦ elim (Bool-cases (k.key_type == key_type_personal)) [
          | inr e ↦ let none_is : none ≡ some role = rw (live, n, e) at h in cc
          | inl t ↦
              let of_owner : owned_role members k k.created_by p ≡ some role =
                rw (live, n, t) at h in
              let (u, m, owner, found, r) = owned_role-some k k.created_by role of_owner in
              let (by_key, by_member) = personal_role_le k.role role m r in
              (live, inr (u, m, eq_of_== _ _ t, owner, found, by_key, by_member))
        ]
      ]

  pub project_access-Grants :
      (keys : ApiKeys) (hash role : String)
      → project_access now members keys hash p ≡ ok role
      → (k : ApiKey) × Listed k keys × (k.key_hash ≡ hash) × Grants k role
  unfolding project_access
  project_access-Grants [] hash role h = cc
  project_access-Grants ((id, k) ∷ keys) hash role h =
      let later : project_access now members keys hash p ≡ ok role
          → (w : ApiKey) × Listed w ((id, k) ∷ keys) × (w.key_hash ≡ hash) × Grants w role =
        λ e.
          let (w, listed, same, grants) = project_access-Grants keys hash role e in
          (w, inr listed, same, grants) in
      elim (Bool-cases (k.key_hash == hash)) [
        | inr n ↦ later (rw n at h)
        | inl y ↦ elim (Option-cases (effective_role now members k p)) [
          | inl n ↦ later (rw (y, n) at h)
          | inr (r, e) ↦
              let same : r ≡ role = ground arith in
              (
                k,
                inl refl,
                eq_of_== _ _ y,
                effective_role-Grants k role
                    (subst (λ x. effective_role now members k p ≡ some x) same e),
              )
        ]
      ]

key_role_sufficient_le :
    (key_role min_key_role : String)
    → key_role_sufficient key_role min_key_role ≡ true
    → key_role_rank min_key_role ≤ key_role_rank key_role
unfolding key_role_sufficient
key_role_sufficient_le key_role min_key_role h = ground arith

-- What a membership that maps to a key role suffices for.
mapped_cases :
    (role : String)
    → (role ≡ role_owner)
      ⊎ ((role ≡ role_admin) ⊎ ((role ≡ role_member) ⊎ (key_role_rank (mapped_role role) ≡ 0)))
unfolding key_role_rank
mapped_cases role = elim (Bool-cases (role == role_owner)) [
  | inl e ↦ inl (eq_of_== _ _ e)
  | inr n ↦ inr (elim (Bool-cases (role == role_admin)) [
    | inl e ↦ inl (eq_of_== _ _ e)
    | inr k ↦ inr (elim (Bool-cases (role == role_member)) [
      | inl e ↦ inl (eq_of_== _ _ e)
      | inr l ↦ inr (rw (n, k, l) refl)
    ])
  ])
]

mapped_read :
    (role : String) → 1 ≤ key_role_rank (mapped_role role) → role_sufficient role role_member ≡ true
unfolding role_sufficient
mapped_read role h = elim (mapped_cases role) [
  | inl e ↦ rw e refl
  | inr (inl e) ↦ rw e refl
  | inr (inr (inl e)) ↦ rw e refl
  | inr (inr (inr z)) ↦ ground arith
]

mapped_write :
    (role : String) → 2 ≤ key_role_rank (mapped_role role) → role_sufficient role role_admin ≡ true
unfolding role_sufficient
mapped_write role h = elim (mapped_cases role) [
  | inl e ↦ rw e refl
  | inr (inl e) ↦ rw e refl
  | inr (inr (inl e)) ↦
      let short : 2 ≤ key_role_rank key_role_read =
        subst (λ r. 2 ≤ key_role_rank (mapped_role r)) e h in
      ground (arith, read_rank)
  | inr (inr (inr z)) ↦ ground arith
]

-- When a key role satisfies the requirement made of a member role, a membership that the key role
-- does not exceed satisfies the member requirement itself.
pub mapped_role_sufficient :
    (role key_role min_role min_key_role : String)
    → membership_role_to_key_role min_role ≡ some min_key_role
    → key_role_sufficient key_role min_key_role ≡ true
    → key_role_rank key_role ≤ key_role_rank (mapped_role role)
    → role_sufficient role min_role ≡ true
mapped_role_sufficient role key_role min_role min_key_role h s le =
    let reach = key_role_sufficient_le key_role min_key_role s in
    elim (key_role_cases min_role min_key_role h) [
      | inl (r, e) ↦
          let least = subst (λ k. key_role_rank k ≤ key_role_rank key_role) e reach in
          rw r (mapped_read role (omega (arith, read_rank, least, le)))
      | inr (r, e) ↦
          let least = subst (λ k. key_role_rank k ≤ key_role_rank key_role) e reach in
          rw r (mapped_write role (omega (arith, write_rank, least, le)))
    ]
