-- ===== src/ApiKeys/Rows.antt =====
-- The table api_keys with the queries of datastore/postgres/sqlc/api_keys.sql.go that the API key
-- service makes. Rows are kept by their primary key; created_at and last_used_at are left out. Of
-- the tables projects and users the queries read which ids there are.
use code_intelegence.Base.{
  ℕ, suc, String, Bool, true, false, ◌&&◌, ◌||◌, Option, none, some, List, [], ◌∷◌, ◌==◌, ltb,
  lookup, insert, contains, if◌then◌else◌,
}
use code_intelegence.Domain.Errors.{no_rows, unique_violation, ok, err}
use code_intelegence.Domain.Roles.{key_type_project, key_type_personal}
use code_intelegence.Postgres.Tx.{Body, query}

pub record ApiKey : Type 0 where
  pub key_type : String
  pub key_prefix : String
  pub key_hash : String
  pub name : String
  pub role : String
  pub project_id : Option String
  pub is_active : Bool
  pub expires_at : Option ℕ
  pub created_by : Option String

abbrev pub ApiKeys : Type 0
ApiKeys = List (String × ApiKey)

pub record Db : Type 0 where
  pub keys : ApiKeys
  pub projects : List String
  pub users : List String

-- A nullable column = $1
abbrev pub is_id : Option String → String → Bool
is_id none id = false
is_id (some x) id = x == id

-- is_active = TRUE AND (expires_at IS NULL OR expires_at > NOW())
abbrev pub is_live : ℕ → ApiKey → Bool
is_live now k = k.is_active && (elim k.expires_at [ none ↦ true | some t ↦ ltb now t ])

abbrev pub is_project_key : ℕ → String → ApiKey → Bool
is_project_key now p k = is_id k.project_id p && (k.key_type == key_type_project && is_live now k)

abbrev pub is_personal_key : ℕ → String → ApiKey → Bool
is_personal_key now u k = is_id k.created_by u && (k.key_type == key_type_personal && is_live now k)

unfoldable pub count_keys : (ApiKey → Bool) → ApiKeys → ℕ
count_keys p [] = 0
count_keys p ((id, k) ∷ rest) = let n = count_keys p rest in if p k then suc n else n

abbrev pub count_project_keys : ℕ → String → Body Db ℕ
count_project_keys now p =
    query "CountProjectKeys" (λ s. (ok (count_keys (is_project_key now p) s.keys), s))

abbrev pub count_personal_keys : ℕ → String → Body Db ℕ
count_personal_keys now u =
    query "CountPersonalKeys" (λ s. (ok (count_keys (is_personal_key now u) s.keys), s))

-- SELECT ... FOR UPDATE
abbrev pub lock_project_row : String → Body Db (Unit {0})
lock_project_row p =
    query "LockProjectRow" (λ s. (if contains p s.projects then ok tt else err no_rows, s))

abbrev pub lock_user_row : String → Body Db (Unit {0})
lock_user_row u = query "LockUserRow" (λ s. (if contains u s.users then ok tt else err no_rows, s))

unfoldable pub hash_used : String → ApiKeys → Bool
hash_used h [] = false
hash_used h ((id, k) ∷ rest) = k.key_hash == h || hash_used h rest

abbrev has_key : Option ApiKey → Bool
has_key none = false
has_key (some k) = true

-- INSERT under the generated id `id`. The primary key and the index on key_hash are unique.
abbrev pub create_api_key : String → ApiKey → Body Db ApiKey
create_api_key id k = query "CreateAPIKey" (λ s.
    if has_key (lookup id s.keys) || hash_used k.key_hash s.keys
    then (err unique_violation, s)
    else (ok k, record s { keys = insert id k s.keys }))

abbrev found_key : Option ApiKey → Body Db ApiKey
found_key none answers db = (err no_rows, db)
found_key (some k) answers db = (ok k, db)

abbrev pub get_api_key_by_id : String → Body Db ApiKey
get_api_key_by_id id answers db =
    query "GetAPIKeyByID" (λ s. found_key (lookup id s.keys) answers s) answers db

-- UPDATE ... SET is_active = FALSE WHERE id = $1 AND is_active = TRUE: the rows affected.
abbrev soft_deleted : String → Option ApiKey → Body Db ℕ
soft_deleted id none answers db = (ok 0, db)
soft_deleted id (some k) answers db =
    if k.is_active
    then (ok 1, record db { keys = insert id (record k { is_active = false }) db.keys })
    else (ok 0, db)

abbrev pub soft_delete_api_key : String → Body Db ℕ
soft_delete_api_key id answers db =
    query "SoftDeleteAPIKey" (λ s. soft_deleted id (lookup id s.keys) answers s) answers db
