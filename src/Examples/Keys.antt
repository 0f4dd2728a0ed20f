-- ===== src/Examples/Keys.antt =====
-- A project key and a personal key, at the service and at the middleware; and a batch of files.
use code_intelegence.Base.{
  ℕ, ◌≤◌, String, ◌≡◌, refl, true, false, none, some, List, [], ◌∷◌, arith, ◌==◌, ◌⊎◌,
  if◌then◌else◌, lookup, insert, All,
}
use code_intelegence.Domain.Errors.{no_rows, ok, err}
use code_intelegence.Domain.Roles.{
  role_owner, platform_role_admin, role_sufficient, key_role_rank, key_type_project,
  key_type_personal,
}
use code_intelegence.Postgres.Tx.{healthy}
use code_intelegence.Membership.Rows.{MemberRow, find_row, db_member_to_domain}
use code_intelegence.ApiKeys.Rows.{ApiKey, Db, is_live, count_keys}
use code_intelegence.ApiKeys.Service.{
  Env, Generated, uuid_text, delete_project_key, delete_personal_key,
}
use code_intelegence.ApiKeys.Limits.{IsLimited}
use code_intelegence.ApiKeys.Limits.Requests.{
  Request, create_project, delete_project, clock_after, serve_all, serve_all-IsLimited,
}
use code_intelegence.Access.{
  Identity, Answers, refused, admitted, check_project_role, project_access, mapped_role, member_of,
  is_platform_admin, project_not_found,
}
use code_intelegence.ApiKeys.Deletion.{delete_project_key_lem}
use code_intelegence.Access.Grants.{Listed}
use code_intelegence.Access.Rights.{key_admitted}
use code_intelegence.Access.Users.{user_admitted, stranger_sees_not_found}
use code_intelegence.Parser.Batch.{
  FileInput, batch_file_inputs, batch_file_inputs_lem, concat, Within,
}

abbrev project_key : ApiKey
project_key = record {
  key_type = "project";
  key_prefix = "mj_proj_abcd";
  key_hash = "h1";
  name = "ci";
  role = "read";
  project_id = some "p";
  is_active = true;
  expires_at = none;
  created_by = some "ann";
}

abbrev personal_key : ApiKey
personal_key = record project_key {
  key_type = "personal";
  key_hash = "h2";
  role = "write";
  project_id = none;
  created_by = some "cid";
}

abbrev tables : Db
tables = record {
  keys = ("k1", project_key) ∷ ("k2", personal_key) ∷ [];
  projects = "p" ∷ [];
  users = "ann" ∷ "cid" ∷ [];
}

abbrev key_env : Env
key_env = record {
  server = healthy;
  now = 10;
  is_uuid = λ _. true;
  generate = λ _. ok (record { plaintext = "mj_proj_new"; prefix = "mj_proj_new_"; hash = "h3" });
  fresh_id = "k3";
}

tables-IsLimited : IsLimited 10 tables
unfolding count_keys
tables-IsLimited = record { project = λ p. ground arith; personal = λ u. ground arith }

abbrev requests : List (Env × Request)
requests =
    (key_env, create_project (record { name = "new"; role = ""; expires_at = none }) "ann" "p")
    ∷ (key_env, delete_project "k1" "p")
    ∷ []

serve_all-IsLimited_example : IsLimited (clock_after 10 requests) (serve_all requests tables)
serve_all-IsLimited_example =
    serve_all-IsLimited 10 requests tables (omega arith, (omega arith, tt)) tables-IsLimited

abbrev without_k1 : Db
without_k1 = record tables {
  keys = ("k1", record project_key { is_active = false }) ∷ ("k2", personal_key) ∷ [];
}

abbrev without_k2 : Db
without_k2 = record tables {
  keys = ("k1", project_key) ∷ ("k2", record personal_key { is_active = false }) ∷ [];
}

deletes_k1 : delete_project_key key_env "k1" "p" tables ≡ (ok tt, without_k1)
unfolding delete_project_key code_intelegence.Postgres.Tx.with_tx
    code_intelegence.ApiKeys.Service.delete_project_key_tx lookup insert
deletes_k1 = refl

deletes_k2 : delete_personal_key key_env "k2" "cid" tables ≡ (ok tt, without_k2)
unfolding delete_personal_key code_intelegence.Postgres.Tx.with_tx
    code_intelegence.ApiKeys.Service.delete_personal_key_tx lookup insert
deletes_k2 = refl

abbrev members : List MemberRow
members =
    record { project_id = "p"; user_id = "cid"; role = "member" }
    ∷ record { project_id = "p"; user_id = "ann"; role = "owner" }
    ∷ []

abbrev of_key : Identity
of_key = record { user = none; platform_roles = none; key_hash = some "h2" }

abbrev of_user : String → Identity
of_user u = record { user = some u; platform_roles = none; key_hash = none }

delete_project_key_lem_example :
    (k : ApiKey) × (lookup "k1" tables.keys ≡ some k)
    × (k.key_type ≡ key_type_project)
    × ((uuid_text k.project_id == "p") ≡ true)
    × (k.is_active ≡ true)
    × (lookup "k2" without_k1.keys
        ≡ (if "k1" == "k2" then some (record k { is_active = false }) else lookup "k2" tables.keys))
delete_project_key_lem_example = delete_project_key_lem key_env "k1" "p" tables "k2" deletes_k1

abbrev answers : Answers
answers = record {
  connected = true;
  is_uuid = λ _. true;
  get_project = λ p. ok tt;
  has_platform_role = λ u role. ok false;
  get_project_member = λ p u. ok (record { project_id = "p"; user_id = "ann"; role = "owner" });
  check_api_key_project_access = λ hash p. project_access 10 members tables.keys hash p;
}

-- The key's role is write, its owner's membership only maps to read.
key_passes :
    check_project_role answers "member" "p" of_key ≡ admitted (member_of "p" "" "read") none
unfolding check_project_role project_access
key_passes = refl

key_admitted_example :
    (k : ApiKey) × Listed k tables.keys
    × (of_key.key_hash ≡ some k.key_hash)
    × (is_live 10 k ≡ true)
    × ((k.key_type ≡ key_type_project) × (k.project_id ≡ some "p") × (k.role ≡ "read")
        ⊎ (u : String) × (row : MemberRow) × (k.key_type ≡ key_type_personal)
          × (k.created_by ≡ some u)
          × (find_row "p" u members ≡ some row)
          × (role_sufficient row.role "member" ≡ true)
          × (key_role_rank "read" ≤ key_role_rank k.role)
          × (key_role_rank "read" ≤ key_role_rank (mapped_role row.role)))
key_admitted_example =
    key_admitted answers "member" "p" of_key 10 members tables.keys refl (λ hash. refl) key_passes

user_passes :
    check_project_role answers "admin" "p" (of_user "ann")
    ≡ admitted (member_of "p" "ann" "owner") none
unfolding check_project_role
user_passes = refl

user_admitted_example :
    ((is_platform_admin none ≡ true)
        ⊎ ((of_user "ann").platform_roles ≡ none)
          × (answers.has_platform_role "ann" platform_role_admin ≡ ok true))
      × (answers.get_project "p" ≡ ok tt)
      × (member_of "p" "ann" "owner" ≡ member_of "p" "ann" role_owner)
    ⊎ (row : MemberRow) × (answers.get_project_member "p" "ann" ≡ ok row)
      × (role_sufficient row.role "admin" ≡ true)
      × (member_of "p" "ann" "owner" ≡ db_member_to_domain row)
user_admitted_example = user_admitted answers "admin" "p" (of_user "ann") "ann" refl user_passes

abbrev to_stranger : Answers
to_stranger = record answers { get_project_member = λ p u. err no_rows }

stranger_sees_not_found_example :
    check_project_role to_stranger "member" "q" (of_user "eve") ≡ refused project_not_found
stranger_sees_not_found_example =
    stranger_sees_not_found to_stranger "member" "q" (of_user "eve") "eve" no_rows refl refl refl
      refl refl refl refl

abbrev file : String → FileInput
file content = record { file_path = "a.go"; content = content; language = "go" }

abbrev bytes_of : String → ℕ
bytes_of s = if s == "large" then 6000000 else 10

batch_file_inputs_lem_example :
    (concat (batch_file_inputs bytes_of (file "x" ∷ file "large" ∷ []))
      ≡ file "x" ∷ file "large" ∷ [])
    × All (Within bytes_of) (batch_file_inputs bytes_of (file "x" ∷ file "large" ∷ []))
batch_file_inputs_lem_example = batch_file_inputs_lem bytes_of (file "x" ∷ file "large" ∷ [])
