-- ===== src/ApiKeys/Deletion.antt =====
-- What the callbacks of the key transactions did when they succeed, and the deletions.
use code_intelegence.Base.{
  ℕ, ◌<◌, String, ◌≡◌, Bool, true, false, none, some, arith, eq_iff, ◌==◌, lookup, insert,
  Option-cases, inl, inr, if◌then◌else◌, lookup-insert,
}
use code_intelegence.Domain.Errors.{ok}
use code_intelegence.Domain.Roles.{key_type_project, key_type_personal}
use code_intelegence.Postgres.Tx.{Answers, with_tx}
use code_intelegence.Postgres.Tx.Atomic.{with_tx_committed}
use code_intelegence.ApiKeys.Rows.{ApiKey, Db, is_project_key, is_personal_key, count_keys}
use code_intelegence.ApiKeys.Service.{
  Env, uuid_text, create_project_key_tx, create_personal_key_tx, delete_project_key_tx,
  delete_personal_key_tx, delete_project_key, delete_personal_key,
}

-- How a creation's callback succeeds: there was room by the count, the id is new, and the key is the
-- only change.
pub record Created (counted : ApiKey → Bool) (id : String) (k : ApiKey) (db after : Db)
    : Type 0 where
  pub room : count_keys counted db.keys < 50
  pub fresh : lookup id db.keys ≡ none
  pub effect : after ≡ record db { keys = insert id k db.keys }

module _ (now : ℕ) (owner id : String) (k : ApiKey) (answers : Answers) (db after : Db) where
  pub create_project_key_tx_done :
      {x : ApiKey}
      → create_project_key_tx now owner id k answers db ≡ (ok x, after)
      → Created (is_project_key now owner) id k db after
  unfolding create_project_key_tx
  create_project_key_tx_done h = record {
    room = ground arith;
    fresh = ground arith;
    effect = ground arith;
  }

  pub create_personal_key_tx_done :
      {x : ApiKey}
      → create_personal_key_tx now owner id k answers db ≡ (ok x, after)
      → Created (is_personal_key now owner) id k db after
  unfolding create_personal_key_tx
  create_personal_key_tx_done h = record {
    room = ground arith;
    fresh = ground arith;
    effect = ground arith;
  }

-- How a deletion's callback succeeds: an active key of the type and owner is deactivated.
pub record Deleted (key_type : String) (owned : ApiKey → Bool) (id : String) (k : ApiKey)
    (db after : Db) : Type 0 where
  pub found : lookup id db.keys ≡ some k
  pub type_is : k.key_type ≡ key_type
  pub owner_is : owned k ≡ true
  pub active : k.is_active ≡ true
  pub effect : after ≡ record db { keys = insert id (record k { is_active = false }) db.keys }

module _ (id owner : String) (answers : Answers) (db after : Db) where
  delete_project_found :
      (k : ApiKey)
      → lookup id db.keys ≡ some k
      → delete_project_key_tx id owner answers db ≡ (ok tt, after)
      → Deleted key_type_project (λ k. uuid_text k.project_id == owner) id k db after
  unfolding delete_project_key_tx
  delete_project_found k f h = record {
    found = f;
    type_is = ground (arith, eq_iff k.key_type key_type_project);
    owner_is = ground arith;
    active = ground arith;
    effect = ground arith;
  }

  pub delete_project_key_tx_done :
      delete_project_key_tx id owner answers db ≡ (ok tt, after)
      → (k : ApiKey) × Deleted key_type_project (λ k. uuid_text k.project_id == owner) id k db after
  unfolding delete_project_key_tx
  delete_project_key_tx_done h = elim (Option-cases (lookup id db.keys)) [
    | inl n ↦ ground arith
    | inr (k, f) ↦ (k, delete_project_found k f h)
  ]

  delete_personal_found :
      (k : ApiKey)
      → lookup id db.keys ≡ some k
      → delete_personal_key_tx id owner answers db ≡ (ok tt, after)
      → Deleted key_type_personal (λ k. uuid_text k.created_by == owner) id k db after
  unfolding delete_personal_key_tx
  delete_personal_found k f h = record {
    found = f;
    type_is = ground (arith, eq_iff k.key_type key_type_personal);
    owner_is = ground arith;
    active = ground arith;
    effect = ground arith;
  }

  pub delete_personal_key_tx_done :
      delete_personal_key_tx id owner answers db ≡ (ok tt, after)
      → (k : ApiKey) × Deleted key_type_personal
          (λ k. uuid_text k.created_by == owner)
          id
          k
          db
          after
  unfolding delete_personal_key_tx
  delete_personal_key_tx_done h = elim (Option-cases (lookup id db.keys)) [
    | inl n ↦ ground arith
    | inr (k, f) ↦ (k, delete_personal_found k f h)
  ]

  pub key_after_deletion :
      (key_type : String) (owned : ApiKey → Bool) (k : ApiKey) (other : String)
      → Deleted key_type owned id k db after
      → lookup other after.keys
        ≡ (if id == other then some (record k { is_active = false }) else lookup other db.keys)
  key_after_deletion key_type owned k other d =
      rw d.effect (lookup-insert id other (record k { is_active = false }) db.keys)

module _ (env : Env) (id owner : String) (db : Db) {after : Db} (other : String) where
  -- A successful DeleteProjectKey found an active project key of that project under the id, and has
  -- deactivated it; what any other id finds is as it was.
  pub delete_project_key_lem :
      delete_project_key env id owner db ≡ (ok tt, after)
      → (k : ApiKey) × (lookup id db.keys ≡ some k)
        × (k.key_type ≡ key_type_project)
        × ((uuid_text k.project_id == owner) ≡ true)
        × (k.is_active ≡ true)
        × (lookup other after.keys
            ≡ (if id == other then some (record k { is_active = false }) else lookup other db.keys))
  unfolding delete_project_key
  delete_project_key_lem h =
      let done : with_tx env.server (delete_project_key_tx id owner) db ≡ (ok tt, after) =
        ground arith in
      let (n, at) = with_tx_committed env.server (delete_project_key_tx id owner) db done in
      let answers = env.server.query_fails n in
      let (k, d) = delete_project_key_tx_done id owner answers db after at in
      let untouched = key_after_deletion id owner answers db after _ _ k other d in
      (k, d.found, d.type_is, d.owner_is, d.active, untouched)

  -- A successful DeletePersonalKey found an active personal key of that user under the id, and has
  -- deactivated it; what any other id finds is as it was.
  pub delete_personal_key_lem :
      delete_personal_key env id owner db ≡ (ok tt, after)
      → (k : ApiKey) × (lookup id db.keys ≡ some k)
        × (k.key_type ≡ key_type_personal)
        × ((uuid_text k.created_by == owner) ≡ true)
        × (k.is_active ≡ true)
        × (lookup other after.keys
            ≡ (if id == other then some (record k { is_active = false }) else lookup other db.keys))
  unfolding delete_personal_key
  delete_personal_key_lem h =
      let done : with_tx env.server (delete_personal_key_tx id owner) db ≡ (ok tt, after) =
        ground arith in
      let (n, at) = with_tx_committed env.server (delete_personal_key_tx id owner) db done in
      let answers = env.server.query_fails n in
      let (k, d) = delete_personal_key_tx_done id owner answers db after at in
      let untouched = key_after_deletion id owner answers db after _ _ k other d in
      (k, d.found, d.type_is, d.owner_is, d.active, untouched)
