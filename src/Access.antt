-- ===== src/Access.antt =====
-- backend-api/internal/middleware/projectrole.go: RequireProjectRole, and the view
-- api_key_project_access of datastore/postgres/migrations/000001_init.up.sql that it reads.
pub mod Grants
pub mod Rights
pub mod Users
use code_intelegence.Base.{
  ℕ, String, Bool, true, false, not, ◌&&◌, Option, none, some, List, [], ◌∷◌, ◌==◌, leb, contains,
  lookup, if◌then◌else◌,
}
use code_intelegence.Domain.Errors.{
  AppError, GoError, Result, ok, err, err_unauthorized, err_internal, not_found, forbidden,
  is_no_rows, no_rows,
}
use code_intelegence.Domain.Roles.{
  role_owner, role_admin, role_member, role_known, role_sufficient, platform_role_admin,
  key_role_read, key_role_write, key_role_rank, key_role_sufficient, membership_role_to_key_role,
  key_type_project, key_type_personal,
}
use code_intelegence.Membership.Rows.{MemberRow, ProjectMember, find_row, db_member_to_domain}
use code_intelegence.ApiKeys.Rows.{ApiKey, ApiKeys, is_live}

-- The identity in the request's context: the user's id and the platform roles that were loaded, or
-- the hash of an API key.
pub record Identity : Type 0 where
  pub user : Option String
  pub platform_roles : Option (List String)
  pub key_hash : Option String

-- What the database answers to a query with these arguments: a project; a user and a role; a project
-- and a user; the hash of a key and a project. `connected` is whether there is a database.
pub record Answers : Type 0 where
  pub connected : Bool
  pub is_uuid : String → Bool
  pub get_project : String → Result GoError (Unit {0})
  pub has_platform_role : String → String → Result GoError Bool
  pub get_project_member : String → String → Result GoError MemberRow
  pub check_api_key_project_access : String → String → Result GoError String

-- An error response, or the next handler with the membership and the platform roles in its context.
pub data Outcome : Type 0 where
  refused : AppError → Outcome
  admitted : ProjectMember → Option (List String) → Outcome

abbrev pub project_not_found : AppError
project_not_found = not_found "project not found"

-- auth.IsPlatformAdmin
abbrev pub is_platform_admin : Option (List String) → Bool
is_platform_admin none = false
is_platform_admin (some roles) = contains platform_role_admin roles

abbrev pub member_of : String → String → String → ProjectMember
member_of project_id user_id role = record {
  project_id = project_id;
  user_id = user_id;
  role = role;
}

abbrev pub query_failed : GoError → Outcome
query_failed e = refused (if is_no_rows e then project_not_found else err_internal)

-- A platform admin is an owner of every project that exists.
abbrev pub as_owner : Result GoError (Unit {0}) → String → String → Option (List String) → Outcome
as_owner (err e) project_id user_id roles = query_failed e
as_owner (ok _) project_id user_id roles = admitted (member_of project_id user_id role_owner) roles

abbrev pub as_member : Result GoError MemberRow → String → Option (List String) → Outcome
as_member (err e) min_role roles = query_failed e
as_member (ok m) min_role roles =
    if not (role_sufficient m.role min_role)
    then refused (forbidden "insufficient project role")
    else admitted (db_member_to_domain m) roles

-- HasPlatformRole is asked when no roles are loaded; a failure falls through.
abbrev pub asked_admin : Option (List String) → Result GoError Bool → Bool
asked_admin none (ok b) = b
asked_admin _ _ = false

abbrev pub for_user : Answers → String → String → String → Option (List String) → Outcome
for_user db min_role project_id user_id roles =
    if not (db.is_uuid user_id)
    then refused err_internal
    else if is_platform_admin roles
    then as_owner (db.get_project project_id) project_id user_id roles
    else if asked_admin roles (db.has_platform_role user_id platform_role_admin)
    then as_owner (db.get_project project_id) project_id user_id (some (platform_role_admin ∷ []))
    else as_member (db.get_project_member project_id user_id) min_role roles

abbrev pub by_key_role : Result GoError String → String → String → Option (List String) → Outcome
by_key_role (err e) project_id min_key_role roles = query_failed e
by_key_role (ok effective) project_id min_key_role roles =
    if not (key_role_sufficient effective min_key_role)
    then refused (forbidden "insufficient api key role")
    else admitted (member_of project_id "" effective) roles

abbrev pub for_key : Answers → Option String → String → String → Option (List String) → Outcome
for_key db none key_hash project_id roles =
    refused (forbidden "api keys cannot access owner-level routes")
for_key db (some min_key_role) key_hash project_id roles =
    by_key_role (db.check_api_key_project_access key_hash project_id) project_id min_key_role roles

abbrev neither : Option String → Option String → Bool
neither none none = true
neither _ _ = false

abbrev pub for_identity : Answers → String → String → Identity → Outcome
for_identity db min_role project_id id = elim id.user [
  | some u ↦ for_user db min_role project_id u id.platform_roles
  | none ↦ elim id.key_hash [
    | some key_hash ↦
        for_key db (membership_role_to_key_role min_role) key_hash project_id id.platform_roles
    | none ↦ refused err_unauthorized
  ]
]

-- The handler that RequireProjectRole builds.
unfoldable pub check_project_role : Answers → String → String → Identity → Outcome
unfolding role_sufficient key_role_sufficient membership_role_to_key_role
check_project_role db min_role project_id id =
    if neither id.user id.key_hash
    then refused err_unauthorized
    else if not db.connected
    then refused err_internal
    else if not (db.is_uuid project_id)
    then refused project_not_found
    else for_identity db min_role project_id id

-- RequireProjectRole panics on an unknown role.
unfoldable pub require_project_role : String → Option (Answers → String → Identity → Outcome)
unfolding check_project_role
require_project_role min_role =
    if not (role_known min_role)
    then none
    else some (λ db project_id id. check_project_role db min_role project_id id)

-- CASE pm.role WHEN 'owner' THEN 'write' WHEN 'admin' THEN 'write' WHEN 'member' THEN 'read' ELSE ''
abbrev pub mapped_role : String → String
mapped_role role =
    if role == role_owner
    then key_role_write
    else if role == role_admin
    then key_role_write
    else if role == role_member
    then key_role_read
    else ""

abbrev least : ℕ → ℕ → ℕ
least a b = if leb a b then a else b

-- The column effective_role, and whether the view has the row.
abbrev pub personal_role : String → Option MemberRow → Option String
personal_role key_role none = none
personal_role key_role (some m) =
    if leb (key_role_rank key_role) 0
    then none
    else if leb (key_role_rank (mapped_role m.role)) 0
    then none
    else if leb 2 (least (key_role_rank key_role) (key_role_rank (mapped_role m.role)))
    then some key_role_write
    else some key_role_read

abbrev pub project_role : ApiKey → Option String → String → Option String
project_role k none p = none
project_role k (some owner) p =
    if owner == p then (if leb (key_role_rank k.role) 0 then none else some k.role) else none

abbrev pub owned_role : List MemberRow → ApiKey → Option String → String → Option String
owned_role members k none p = none
owned_role members k (some u) p = personal_role k.role (find_row p u members)

-- The rows of the view for one key and project.
unfoldable pub effective_role : ℕ → List MemberRow → ApiKey → String → Option String
unfolding key_role_rank find_row
effective_role now members k p =
    if not (is_live now k)
    then none
    else if k.key_type == key_type_project
    then project_role k k.project_id p
    else if k.key_type == key_type_personal
    then owned_role members k k.created_by p
    else none

-- CheckAPIKeyProjectAccess: the first row of the view.
unfoldable pub project_access :
    ℕ → List MemberRow → ApiKeys → String → String → Result GoError String
unfolding effective_role
project_access now members [] hash p = err no_rows
project_access now members ((id, k) ∷ keys) hash p =
    let rest = project_access now members keys hash p in
    if k.key_hash == hash
    then (elim (effective_role now members k p) [ some role ↦ ok role | none ↦ rest ])
    else rest
