-- ===== src/Domain/Roles/Order.antt =====
-- The role tests of domain/models.go as an order, and the map from member roles to key roles.
use code_intelegence.Base.{
  String, ◌≡◌, ◌⊎◌, ◌↔◌, ◌≤◌, ◌<◌, true, some, arith, eq_iff, ◌==◌, Bool-cases, inl, inr, eq_of_==,
}
use mathlib.Core.Path.{subst}
use code_intelegence.Domain.Roles.{
  role_owner, role_admin, role_member, key_role_read, key_role_write, role_rank, role_sufficient,
  key_role_sufficient, membership_role_to_key_role,
}

pub role_sufficient_iff :
    (user_role min_role : String)
    → (role_sufficient user_role min_role ≡ true)
      ↔ ((0 < role_rank min_role) × (role_rank min_role ≤ role_rank user_role))
unfolding role_sufficient
role_sufficient_iff user_role min_role = (λ h. ground arith, λ h. ground arith)

-- Sufficiency is transitive: who satisfies a requirement satisfies every requirement that its
-- role name satisfies.
pub role_sufficient_trans :
    (a b c : String)
    → role_sufficient a b ≡ true
    → role_sufficient b c ≡ true
    → role_sufficient a c ≡ true
role_sufficient_trans a b c h k =
    (role_sufficient_iff a c).1
      (omega (arith, (role_sufficient_iff a b).0 h, (role_sufficient_iff b c).0 k))

-- What a key requirement comes from.
pub key_role_cases :
    (role key : String)
    → membership_role_to_key_role role ≡ some key
    → (role ≡ role_member) × (key ≡ key_role_read) ⊎ (role ≡ role_admin) × (key ≡ key_role_write)
unfolding membership_role_to_key_role
key_role_cases role key h = elim (Bool-cases (role == role_member)) [
  | inl m ↦ inl (eq_of_== _ _ m, ground arith)
  | inr n ↦ inr ((ground (arith, eq_iff role role_admin)), (ground (arith, eq_iff role role_admin)))
]

-- The roles that a role suffices for, below owner.
below_member : (weak : String) → role_sufficient role_member weak ≡ true → weak ≡ role_member
unfolding role_sufficient
below_member weak h =
    ground (arith, eq_iff weak role_member, eq_iff weak role_admin, eq_iff weak role_owner)

below_admin :
    (weak : String)
    → role_sufficient role_admin weak ≡ true
    → (weak ≡ role_member) ⊎ (weak ≡ role_admin)
unfolding role_sufficient
below_admin weak h =
    ground (arith, eq_iff weak role_member, eq_iff weak role_admin, eq_iff weak role_owner)

-- A requirement that API keys can meet stays so when it is weakened to any requirement that its
-- role suffices for, and the stronger key role suffices for the weaker key requirement.
pub membership_role_to_key_role_mono :
    (weak strong strong_key : String)
    → membership_role_to_key_role strong ≡ some strong_key
    → role_sufficient strong weak ≡ true
    → (weak_key : String) × (membership_role_to_key_role weak ≡ some weak_key)
      × (key_role_sufficient strong_key weak_key ≡ true)
unfolding membership_role_to_key_role key_role_sufficient
membership_role_to_key_role_mono weak strong strong_key h k =
    elim (key_role_cases strong strong_key h) [
      | inl (r, e) ↦ (
        key_role_read,
        rw (below_member weak (subst (λ x. role_sufficient x weak ≡ true) r k)),
        rw e,
      )
      | inr (r, e) ↦ elim (below_admin weak (subst (λ x. role_sufficient x weak ≡ true) r k)) [
        | inl w ↦ (key_role_read, rw w, rw e)
        | inr w ↦ (key_role_write, rw w, rw e)
      ]
    ]
