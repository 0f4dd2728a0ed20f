-- ===== src/Domain/Roles.antt =====
-- backend-api/internal/domain/models.go: project roles, platform roles and API key roles.
pub mod Order
use code_intelegence.Base.{
  ℕ, String, Bool, true, false, ◌||◌, Option, none, some, ltb, leb, ◌==◌, if◌then◌else◌, not,
}

abbrev pub role_owner : String
role_owner = "owner"

abbrev pub role_admin : String
role_admin = "admin"

abbrev pub role_member : String
role_member = "member"

abbrev pub platform_role_admin : String
platform_role_admin = "platform_admin"

abbrev pub key_role_read : String
key_role_read = "read"

abbrev pub key_role_write : String
key_role_write = "write"

abbrev pub key_type_project : String
key_type_project = "project"

abbrev pub key_type_personal : String
key_type_personal = "personal"

unfoldable pub platform_role_known : String → Bool
platform_role_known role = role == platform_role_admin

unfoldable pub key_role_valid : String → Bool
key_role_valid role = role == key_role_read || role == key_role_write

-- owner(3) > admin(2) > member(1) > anything else(0)
unfoldable pub role_rank : String → ℕ
role_rank role =
    if role == role_owner
    then 3
    else if role == role_admin
    then 2
    else if role == role_member
    then 1
    else 0

unfoldable pub role_known : String → Bool
unfolding role_rank
role_known role = ltb 0 (role_rank role)

unfoldable pub role_sufficient : String → String → Bool
unfolding role_known role_rank
role_sufficient user_role min_role =
    if not (role_known min_role) then false else leb (role_rank min_role) (role_rank user_role)

unfoldable pub key_role_rank : String → ℕ
key_role_rank role = if role == key_role_write then 2 else if role == key_role_read then 1 else 0

unfoldable pub key_role_sufficient : String → String → Bool
unfolding key_role_rank
key_role_sufficient key_role min_key_role =
    if leb (key_role_rank min_key_role) 0
    then false
    else leb (key_role_rank min_key_role) (key_role_rank key_role)

-- `none` is the `("", false)` of the source: API keys cannot satisfy the requirement.
unfoldable pub membership_role_to_key_role : String → Option String
membership_role_to_key_role min_role =
    if min_role == role_member
    then some key_role_read
    else if min_role == role_admin
    then some key_role_write
    else none
