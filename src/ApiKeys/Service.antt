-- ===== src/ApiKeys/Service.antt =====
-- backend-api/internal/apikey/service.go: creating and deleting keys of both types. The services
-- return plain errors, which the handlers turn into responses.
use code_intelegence.Base.{ℕ, String, Bool, true, not, Option, none, some, ◌==◌, leb, if◌then◌else◌}
use code_intelegence.Domain.Errors.{
  GoError, app, wrap, other, Result, ok, err, bad_request, not_found, is_no_rows,
}
use code_intelegence.Domain.Roles.{
  key_role_read, key_role_valid, key_type_project, key_type_personal,
}
use code_intelegence.Postgres.Tx.{Server, Body, fail_if, on_error, with_tx, ◌>>=◌, ◌>>◌}
use code_intelegence.ApiKeys.Rows.{
  ApiKey, Db, count_project_keys, count_personal_keys, lock_project_row, lock_user_row,
  create_api_key, get_api_key_by_id, soft_delete_api_key,
}

abbrev pub max_project_keys : ℕ
max_project_keys = 50

abbrev pub max_personal_keys : ℕ
max_personal_keys = 50

pub record CreateKeyRequest : Type 0 where
  pub name : String
  pub role : String
  pub expires_at : Option ℕ

-- What GenerateAPIKey returns.
pub record Generated : Type 0 where
  pub plaintext : String
  pub prefix : String
  pub hash : String

-- The key as it is stored, and its plaintext.
pub record CreateKeyResult : Type 0 where
  pub info : ApiKey
  pub plaintext_key : String

-- The clock, the UUID parser, the key generator (crypto/rand and SHA-256) and the id that
-- PostgreSQL generates.
pub record Env : Type 0 where
  pub server : Server
  pub now : ℕ
  pub is_uuid : String → Bool
  pub generate : String → Result GoError Generated
  pub fresh_id : String

-- role := req.Role; if role == "" { role = domain.KeyRoleRead }
abbrev pub requested_role : CreateKeyRequest → String
requested_role req = if req.role == "" then key_role_read else req.role

abbrev pub new_key : String → Option String → String → CreateKeyRequest → Generated → ApiKey
new_key key_type project_id creator req g = record {
  key_type = key_type;
  key_prefix = g.prefix;
  key_hash = g.hash;
  name = req.name;
  role = requested_role req;
  project_id = project_id;
  is_active = true;
  expires_at = req.expires_at;
  created_by = some creator;
}

abbrev lock_failed : String → String → GoError → GoError
lock_failed missing context e = if is_no_rows e then app (not_found missing) else wrap context e

-- The callbacks of the two creations.
unfoldable pub create_project_key_tx : ℕ → String → String → ApiKey → Body Db ApiKey
create_project_key_tx now project_id id k = do
  on_error (lock_failed "project not found" "lock project") (lock_project_row project_id)
  count ← on_error (wrap "count project keys") (count_project_keys now project_id)
  fail_if (leb max_project_keys count) (app (bad_request "project key limit reached (max 50)"))
  create_api_key id k

unfoldable pub create_personal_key_tx : ℕ → String → String → ApiKey → Body Db ApiKey
create_personal_key_tx now user_id id k = do
  on_error (lock_failed "user not found" "lock user") (lock_user_row user_id)
  count ← on_error (wrap "count personal keys") (count_personal_keys now user_id)
  fail_if (leb max_personal_keys count) (app (bad_request "personal key limit reached (max 50)"))
  create_api_key id k

abbrev pub created : String → Result GoError ApiKey × Db → Result GoError CreateKeyResult × Db
created plaintext (ok row, db) = (ok (record { info = row; plaintext_key = plaintext }), db)
created plaintext (err e, db) = (err e, db)

-- After GenerateAPIKey.
abbrev pub with_generated :
    Result GoError Generated
    → Db
    → (Generated → Result GoError CreateKeyResult × Db)
    → Result GoError CreateKeyResult × Db
with_generated (err e) db rest = (err (wrap "generate key" e), db)
with_generated (ok g) db rest = rest g

abbrev api_key_not_found : GoError
api_key_not_found = app (not_found "api key not found")

abbrev get_key_failed : GoError → GoError
get_key_failed e = if is_no_rows e then api_key_not_found else wrap "get api key" e

-- dbconv.PgUUIDToString
abbrev pub uuid_text : Option String → String
uuid_text none = ""
uuid_text (some s) = s

-- The callbacks of the two deletions.
unfoldable pub delete_project_key_tx : String → String → Body Db (Unit {0})
delete_project_key_tx key_id project_id = do
  row ← on_error get_key_failed (get_api_key_by_id key_id)
  fail_if (not (row.key_type == key_type_project)) api_key_not_found
  fail_if (not (uuid_text row.project_id == project_id)) api_key_not_found
  fail_if (not row.is_active) api_key_not_found
  affected ← on_error (wrap "soft delete api key") (soft_delete_api_key key_id)
  fail_if (leb affected 0) api_key_not_found

unfoldable pub delete_personal_key_tx : String → String → Body Db (Unit {0})
delete_personal_key_tx key_id user_id = do
  row ← on_error get_key_failed (get_api_key_by_id key_id)
  fail_if (not (row.key_type == key_type_personal)) api_key_not_found
  fail_if (not (uuid_text row.created_by == user_id)) api_key_not_found
  fail_if (not row.is_active) api_key_not_found
  affected ← on_error (wrap "soft delete api key") (soft_delete_api_key key_id)
  fail_if (leb affected 0) api_key_not_found

module _ (env : Env) where
  unfoldable pub create_project_key :
      CreateKeyRequest → String → String → Db → Result GoError CreateKeyResult × Db
  unfolding key_role_valid
  create_project_key req creator_id project_id db =
      if not (key_role_valid (requested_role req))
      then (err (app (bad_request "invalid role")), db)
      else if not (env.is_uuid creator_id)
      then (err (wrap "parse creator id" (other "invalid UUID")), db)
      else if not (env.is_uuid project_id)
      then (err (wrap "parse project id" (other "invalid UUID")), db)
      else with_generated (env.generate key_type_project) db λ g. created g.plaintext (
          with_tx env.server
            (create_project_key_tx env.now project_id env.fresh_id
              (new_key key_type_project (some project_id) creator_id req g))
            db)

  unfoldable pub create_personal_key :
      CreateKeyRequest → String → Db → Result GoError CreateKeyResult × Db
  unfolding key_role_valid
  create_personal_key req user_id db =
      if not (key_role_valid (requested_role req))
      then (err (app (bad_request "invalid role")), db)
      else if not (env.is_uuid user_id)
      then (err (wrap "parse user id" (other "invalid UUID")), db)
      else with_generated (env.generate key_type_personal) db λ g. created g.plaintext (
          with_tx env.server
            (create_personal_key_tx env.now user_id env.fresh_id
              (new_key key_type_personal none user_id req g))
            db)

  unfoldable pub delete_project_key : String → String → Db → Result GoError (Unit {0}) × Db
  delete_project_key key_id project_id db =
      if not (env.is_uuid key_id)
      then (err api_key_not_found, db)
      else with_tx env.server (delete_project_key_tx key_id project_id) db

  unfoldable pub delete_personal_key : String → String → Db → Result GoError (Unit {0}) × Db
  delete_personal_key key_id user_id db =
      if not (env.is_uuid key_id)
      then (err api_key_not_found, db)
      else with_tx env.server (delete_personal_key_tx key_id user_id) db
