-- ===== src/ApiKeys/Limits.antt =====
-- How many live keys there are, over time.
use code_intelegence.Base.{
  ℕ, suc, ◌+◌, ◌<◌, ◌≤◌, String, ◌≡◌, ◌≢◌, refl, Bool, true, false, not, ◌&&◌, Option, none, some,
  List, [], ◌∷◌, arith, eq_iff, ◌==◌, lookup, insert, Option-cases, Bool-cases, inl, inr,
  if◌then◌else◌, lookup-insert, ltb,
}
pub mod Requests
use mathlib.Core.Path.{subst, sym}
use code_intelegence.Domain.Errors.{GoError, Result, ok, err}
use code_intelegence.Domain.Roles.{key_type_project, key_type_personal}
use code_intelegence.Postgres.Tx.{Answers, Body, with_tx}
use code_intelegence.Postgres.Tx.Atomic.{with_tx-keeps}
use code_intelegence.ApiKeys.Rows.{
  ApiKey, ApiKeys, Db, is_id, is_live, is_project_key, is_personal_key, count_keys,
}
use code_intelegence.ApiKeys.Service.{
  Env, CreateKeyRequest, CreateKeyResult, Generated, new_key, created, with_generated,
  create_project_key_tx, create_personal_key_tx, delete_project_key_tx, delete_personal_key_tx,
  create_project_key, create_personal_key, delete_project_key, delete_personal_key,
}
use code_intelegence.ApiKeys.Deletion.{
  Created, Deleted, create_project_key_tx_done, create_personal_key_tx_done,
  delete_project_key_tx_done, delete_personal_key_tx_done,
}

module _ (p : ApiKey → Bool) where
  count-insert_fresh :
      (id : String) (k : ApiKey) (keys : ApiKeys)
      → lookup id keys ≡ none
      → count_keys p (insert id k keys) ≡ (if p k then 1 else 0) + count_keys p keys
  unfolding count_keys insert lookup
  count-insert_fresh id k [] h = ground arith
  count-insert_fresh id k ((j, w) ∷ keys) h = ground (arith, count-insert_fresh id k keys)

  -- Replacing a row by one that is not counted.
  count-insert_uncounted :
      (id : String) (k : ApiKey) (keys : ApiKeys)
      → p k ≡ false
      → count_keys p (insert id k keys) ≤ count_keys p keys
  unfolding count_keys insert
  count-insert_uncounted id k [] h = ground arith
  count-insert_uncounted id k ((j, w) ∷ keys) h = ground (arith, count-insert_uncounted id k keys h)

  count_weaken :
      (q : ApiKey → Bool) (keys : ApiKeys)
      → ((k : ApiKey) → q k ≡ true → p k ≡ true)
      → count_keys q keys ≤ count_keys p keys
  unfolding count_keys
  count_weaken q [] h = omega arith
  count_weaken q ((j, k) ∷ keys) h = ground (arith, count_weaken q keys h, h k)

-- At a time, no project and no user has more than 50 live keys.
pub record IsLimited (now : ℕ) (db : Db) : Type 0 where
  pub project : (p : String) → count_keys (is_project_key now p) db.keys ≤ 50
  pub personal : (u : String) → count_keys (is_personal_key now u) db.keys ≤ 50

-- Keys only expire as time passes.
pub later-IsLimited :
    (now later : ℕ) (db : Db) → now ≤ later → IsLimited now db → IsLimited later db
later-IsLimited now later db le h = record {
  project = λ p. omega (
    arith,
    count_weaken (is_project_key now p) (is_project_key later p) db.keys (λ k e. ground arith),
    h.project p,
  );
  personal = λ u. omega (
    arith,
    count_weaken (is_personal_key now u) (is_personal_key later u) db.keys (λ k e. ground arith),
    h.personal u,
  );
}

module _ (now : ℕ) (db after : Db) (h : IsLimited now db) where
  pub Created-project-IsLimited :
      (owner id creator : String) (req : CreateKeyRequest) (g : Generated)
      → Created
          (is_project_key now owner)
          id
          (new_key key_type_project (some owner) creator req g)
          db
          after
      → IsLimited now after
  Created-project-IsLimited owner id creator req g c =
      let k = new_key key_type_project (some owner) creator req g in
      subst (IsLimited now) (sym c.effect) (record {
        project = λ p. ground (
          arith,
          eq_iff owner p,
          c.room,
          h.project p,
          count-insert_fresh (is_project_key now p) id k db.keys c.fresh,
        );
        personal = λ u.
            ground (
              arith,
              h.personal u,
              count-insert_fresh (is_personal_key now u) id k db.keys c.fresh,
            );
      })

  pub Created-personal-IsLimited :
      (owner id : String) (req : CreateKeyRequest) (g : Generated)
      → Created (is_personal_key now owner) id (new_key key_type_personal none owner req g) db after
      → IsLimited now after
  Created-personal-IsLimited owner id req g c =
      let k = new_key key_type_personal none owner req g in
      subst (IsLimited now) (sym c.effect) (record {
        project = λ p.
            ground
              (arith, h.project p, count-insert_fresh (is_project_key now p) id k db.keys c.fresh);
        personal = λ u. ground (
          arith,
          eq_iff owner u,
          c.room,
          h.personal u,
          count-insert_fresh (is_personal_key now u) id k db.keys c.fresh,
        );
      })

  pub Deleted-IsLimited :
      (key_type id : String) (owned : ApiKey → Bool) (k : ApiKey)
      → Deleted key_type owned id k db after
      → IsLimited now after
  Deleted-IsLimited key_type id owned k d =
      let gone = record k { is_active = false } in
      subst (IsLimited now) (sym d.effect) (record {
        project = λ p. omega (
          arith,
          h.project p,
          count-insert_uncounted (is_project_key now p) id gone db.keys (ground arith),
        );
        personal = λ u. omega (
          arith,
          h.personal u,
          count-insert_uncounted (is_personal_key now u) id gone db.keys (ground arith),
        );
      })
