-- ===== src/ApiKeys/Limits/Requests.antt =====
-- The key limits under requests of the API key service.
use code_intelegence.Base.{ℕ, ◌≤◌, String, none, some, List, [], ◌∷◌, Bool-cases, inl, inr}
use code_intelegence.Domain.Errors.{GoError, Result, ok, err}
use code_intelegence.Domain.Roles.{key_type_project, key_type_personal, key_role_valid}
use code_intelegence.Postgres.Tx.{with_tx}
use code_intelegence.Postgres.Tx.Atomic.{with_tx-keeps}
use code_intelegence.ApiKeys.Rows.{ApiKey, Db}
use code_intelegence.ApiKeys.Service.{
  Env, CreateKeyRequest, CreateKeyResult, Generated, new_key, created, with_generated,
  requested_role, create_project_key_tx, create_personal_key_tx, delete_project_key_tx,
  delete_personal_key_tx, create_project_key, create_personal_key, delete_project_key,
  delete_personal_key,
}
use code_intelegence.ApiKeys.Deletion.{
  create_project_key_tx_done, create_personal_key_tx_done, delete_project_key_tx_done,
  delete_personal_key_tx_done,
}
use code_intelegence.ApiKeys.Limits.{
  IsLimited, later-IsLimited, Created-project-IsLimited, Created-personal-IsLimited,
  Deleted-IsLimited,
}

module _ (P : Db → Type 0) where
  created-keeps :
      (plaintext : String) (r : Result GoError ApiKey × Db) → P r.1 → P (created plaintext r).1
  created-keeps plaintext (ok k, db) h = h
  created-keeps plaintext (err e, db) h = h

  with_generated-keeps :
      (g : Result GoError Generated) (db : Db)
      (rest : Generated → Result GoError CreateKeyResult × Db)
      → P db
      → ((x : Generated) → P (rest x).1)
      → P (with_generated g db rest).1
  with_generated-keeps (ok x) db rest here h = h x
  with_generated-keeps (err e) db rest here h = here

module _ (env : Env) (db : Db) (h : IsLimited env.now db) where
  create_project_key-IsLimited :
      (req : CreateKeyRequest) (creator p : String)
      → IsLimited env.now (create_project_key env req creator p db).1
  unfolding create_project_key
  create_project_key-IsLimited req creator p =
      let made =
        with_generated-keeps (IsLimited env.now) (env.generate key_type_project) db
          (λ g. created g.plaintext (
            with_tx env.server
              (create_project_key_tx env.now p env.fresh_id
                (new_key key_type_project (some p) creator req g))
              db))
          h
          (λ g.
            let k = new_key key_type_project (some p) creator req g in
            created-keeps (IsLimited env.now) g.plaintext
              (with_tx env.server (create_project_key_tx env.now p env.fresh_id k) db)
              (with_tx-keeps env.server (create_project_key_tx env.now p env.fresh_id k) db
                (IsLimited env.now) h
                λ n x after e.
                  Created-project-IsLimited env.now db after h p env.fresh_id creator req g (
                    create_project_key_tx_done env.now p env.fresh_id k (env.server.query_fails n)
                      db after e))) in
      elim (Bool-cases (key_role_valid (requested_role req))) [
        | inr e ↦ rw e h
        | inl e ↦ elim (Bool-cases (env.is_uuid creator)) [
          | inr c ↦ rw (e, c) h
          | inl c ↦ elim (Bool-cases (env.is_uuid p)) [
            | inr d ↦ rw (e, c, d) h
            | inl d ↦ rw (e, c, d) made
          ]
        ]
      ]

  create_personal_key-IsLimited :
      (req : CreateKeyRequest) (u : String) → IsLimited env.now (create_personal_key env req u db).1
  unfolding create_personal_key
  create_personal_key-IsLimited req u =
      let made =
        with_generated-keeps (IsLimited env.now) (env.generate key_type_personal) db
          (λ g. created g.plaintext (
            with_tx env.server
              (create_personal_key_tx env.now u env.fresh_id
                (new_key key_type_personal none u req g))
              db))
          h
          (λ g.
            let k = new_key key_type_personal none u req g in
            created-keeps (IsLimited env.now) g.plaintext
              (with_tx env.server (create_personal_key_tx env.now u env.fresh_id k) db)
              (with_tx-keeps env.server (create_personal_key_tx env.now u env.fresh_id k) db
                (IsLimited env.now) h
                λ n x after e. Created-personal-IsLimited env.now db after h u env.fresh_id req g (
                  create_personal_key_tx_done env.now u env.fresh_id k (env.server.query_fails n) db
                    after e))) in
      elim (Bool-cases (key_role_valid (requested_role req))) [
        | inr e ↦ rw e h
        | inl e ↦ elim (Bool-cases (env.is_uuid u)) [ inr c ↦ rw (e, c) h | inl c ↦ rw (e, c) made ]
      ]

  delete_project_key-IsLimited :
      (id p : String) → IsLimited env.now (delete_project_key env id p db).1
  unfolding delete_project_key
  delete_project_key-IsLimited id p = elim (Bool-cases (env.is_uuid id)) [
    | inr e ↦ rw e h
    | inl e ↦ rw e (
        with_tx-keeps env.server (delete_project_key_tx id p) db (IsLimited env.now) h
          λ n x after at.
            let (k, d) = delete_project_key_tx_done id p (env.server.query_fails n) db after at in
            Deleted-IsLimited env.now db after h _ id _ k d)
  ]

  delete_personal_key-IsLimited :
      (id u : String) → IsLimited env.now (delete_personal_key env id u db).1
  unfolding delete_personal_key
  delete_personal_key-IsLimited id u = elim (Bool-cases (env.is_uuid id)) [
    | inr e ↦ rw e h
    | inl e ↦ rw e (
        with_tx-keeps env.server (delete_personal_key_tx id u) db (IsLimited env.now) h
          λ n x after at.
            let (k, d) = delete_personal_key_tx_done id u (env.server.query_fails n) db after at in
            Deleted-IsLimited env.now db after h _ id _ k d)
  ]

-- One request to the service: the key id or the request's body, the project or user, and for a
-- project key the creator.
pub data Request : Type 0 where
  create_project : CreateKeyRequest → String → String → Request
  create_personal : CreateKeyRequest → String → Request
  delete_project delete_personal : String → String → Request

pub serve : Env → Request → Db → Db
serve env (create_project req creator p) db = (create_project_key env req creator p db).1
serve env (create_personal req u) db = (create_personal_key env req u db).1
serve env (delete_project id p) db = (delete_project_key env id p db).1
serve env (delete_personal id u) db = (delete_personal_key env id u db).1

pub serve_all : List (Env × Request) → Db → Db
unfolding serve
serve_all [] db = db
serve_all ((env, x) ∷ xs) db = serve_all xs (serve env x db)

-- The clock does not go back, from `now` on; and where it stands at the end.
abbrev pub InOrder : ℕ → List (Env × Request) → Type 0
InOrder now [] = Unit
InOrder now ((env, x) ∷ xs) = (now ≤ env.now) × InOrder env.now xs

abbrev pub clock_after : ℕ → List (Env × Request) → ℕ
clock_after now [] = now
clock_after now ((env, x) ∷ xs) = clock_after env.now xs

serve-IsLimited :
    (env : Env) (x : Request) (db : Db) → IsLimited env.now db → IsLimited env.now (serve env x db)
unfolding serve
serve-IsLimited env (create_project req creator p) db h =
    create_project_key-IsLimited env db h req creator p
serve-IsLimited env (create_personal req u) db h = create_personal_key-IsLimited env db h req u
serve-IsLimited env (delete_project id p) db h = delete_project_key-IsLimited env db h id p
serve-IsLimited env (delete_personal id u) db h = delete_personal_key-IsLimited env db h id u

-- When no project and no user has more than 50 live keys of its own, that stays so after any
-- sequence of creations and deletions, whichever database calls fail and whatever keys the generator
-- makes, as long as the clock does not go back.
pub serve_all-IsLimited :
    (now : ℕ) (requests : List (Env × Request)) (db : Db)
    → InOrder now requests
    → IsLimited now db
    → IsLimited (clock_after now requests) (serve_all requests db)
unfolding serve_all
serve_all-IsLimited now [] db o h = h
serve_all-IsLimited now ((env, x) ∷ xs) db o h =
    serve_all-IsLimited env.now xs (serve env x db) o.1
      (serve-IsLimited env x db (later-IsLimited now env.now db o.0 h))
