-- ===== src/Sse/Hub/Privacy.antt =====
-- Which clients hear of a project.
use mathlib.Core.Path.{subst}
use code_intelegence.Base.{
  String, ◌≡◌, refl, Bool, true, false, not, ◌&&◌, ◌||◌, Option, none, some, List, [], ◌∷◌, arith,
  eq_iff, eq_refl, lookup, lookup-map_values, map_values, Each, Each-insert, Each-delete,
  Each-map_values, Each-lookup, All, Bool-cases, Option-cases, inl, inr, leb, length, contains,
  ◌==◌, if◌then◌else◌,
}
use code_intelegence.Sse.Hub.{
  Hub, Client, new_client, register, unregister, broadcast, send_to_user, set_add, set_delete,
  add_project_for_user, remove_project_for_user, apply_memberships, try_send,
}
use code_intelegence.Sse.Hub.Steps.{
  Op, connect, disconnect, read, publish, notify, grant, revoke, load, step, run, take_frame,
}

contains-set_add :
    (k p : String) (ps : List String) → contains k (set_add p ps) ≡ (p == k || contains k ps)
unfolding set_add
contains-set_add k p ps = ground (arith, contains_same)
  where
    contains_same : (p == k && contains p ps) ≡ true → contains k ps ≡ true
    contains_same h = ground (arith, eq_iff p k)

contains-set_delete :
    (k p : String) (ps : List String)
    → contains k (set_delete p ps) ≡ (not (p == k) && contains k ps)
unfolding set_delete
contains-set_delete k p [] = ground arith
contains-set_delete k p (q ∷ ps) =
    ground (arith, contains-set_delete k p ps, eq_iff q p, eq_iff q k, eq_iff p k)

-- Whether a step gives the user `u` the project `p` anew.
unfoldable pub regrants : String → String → Op → Bool
regrants u p (connect id v ps) = v == u && contains p ps
regrants u p (grant v q) = v == u && q == p
regrants u p (load ms) = elim (lookup u ms) [ none ↦ false | some ps ↦ contains p ps ]
regrants u p _ = false

module _ (u p : String) where
  -- A client of `u` is not in `p`.
  abbrev Excluded : Client → Type 0
  Excluded c = c.user_id ≡ u → contains p c.project_ids ≡ false

  register-Excluded :
      (id : String) (c : Client) (h : Hub)
      → Excluded c
      → Each Excluded h.clients
      → Each Excluded (register id c h).1.clients
  unfolding register
  register-Excluded id c h e b = elim (Bool-cases (leb h.max_conns (length h.clients))) [
    | inl n ↦ rw (n, register) b
    | inr n ↦ rw (n, register) (Each-insert Excluded id c h.clients e b)
  ]

  unregister-Excluded :
      (id : String) (h : Hub) → Each Excluded h.clients → Each Excluded (unregister id h).1.clients
  unfolding unregister
  unregister-Excluded id h b = elim (Option-cases (lookup id h.clients)) [
    | inl e ↦ rw (e, unregister) b
    | inr (c, e) ↦ rw (e, unregister) (Each-delete Excluded id h.clients b)
  ]

  read-Excluded :
      (id : String) (h : Hub) (found : Option Client)
      → lookup id h.clients ≡ found
      → Each Excluded h.clients
      → Each Excluded (take_frame id found h).clients
  read-Excluded id h none e b = b
  read-Excluded id h (some c) e b =
      Each-insert Excluded id _ h.clients (Each-lookup Excluded id c h.clients e b) b

  load-Excluded :
      (ms : List (String × List String)) (c : Client) (found : Option (List String))
      → lookup c.user_id ms ≡ found
      → regrants u p (load ms) ≡ false
      → Excluded c
      → Excluded (elim found [ some pids ↦ record c { project_ids = pids } | none ↦ c ])
  unfolding regrants
  load-Excluded ms c none e n x = x
  load-Excluded ms c (some pids) e n x = λ same.
      let mine : lookup u ms ≡ some pids = subst (λ v. lookup v ms ≡ some pids) same e in
      ground arith

  step-Excluded :
      (op : Op) (h : Hub)
      → regrants u p op ≡ false
      → Each Excluded h.clients
      → Each Excluded (step op h).clients
  unfolding step regrants new_client broadcast send_to_user add_project_for_user
      remove_project_for_user apply_memberships
  step-Excluded (connect id v ps) h n b =
      register-Excluded id _ h (λ e. ground (arith, eq_iff v u)) b
  step-Excluded (disconnect id) h n b = unregister-Excluded id h b
  step-Excluded (read id) h n b = read-Excluded id h (lookup id h.clients) refl b
  step-Excluded (publish q frame) h n b =
      Each-map_values Excluded _ h.clients (λ c x e. ground arith) b
  step-Excluded (notify v frame) h n b =
      Each-map_values Excluded _ h.clients (λ c x e. ground arith) b
  step-Excluded (grant v q) h n b =
      Each-map_values Excluded _ h.clients
        (λ c x e.
          ground (arith, eq_iff v u, eq_iff c.user_id v, contains-set_add p q c.project_ids))
        b
  step-Excluded (revoke v q) h n b =
      Each-map_values Excluded _ h.clients
        (λ c x e. ground (arith, contains-set_delete p q c.project_ids)) b
  step-Excluded (load ms) h n b =
      Each-map_values Excluded _ h.clients (λ c. load-Excluded ms c (lookup c.user_id ms) refl n) b

  run-Excluded :
      (ops : List Op) (h : Hub)
      → All (λ op. regrants u p op ≡ false) ops
      → Each Excluded h.clients
      → Each Excluded (run ops h).clients
  unfolding run
  run-Excluded [] h n b = b
  run-Excluded (op ∷ ops) h n b = run-Excluded ops (step op h) n.1 (step-Excluded op h n.0 b)

  revoked_clients :
      (m : List (String × Client))
      → Each Excluded (
          map_values
            (λ c.
              if c.user_id == u then record c { project_ids = set_delete p c.project_ids } else c)
            m)
  unfolding map_values
  revoked_clients [] = tt
  revoked_clients ((id, c) ∷ m) = (
    λ e. ground (arith, contains-set_delete p p c.project_ids, eq_refl p, eq_iff c.user_id u),
    revoked_clients m,
  )

  -- After a user is removed from a project, a broadcast to the project changes nothing at any client
  -- of that user, whatever happened in between, as long as nothing gave the project back: no new
  -- connection of the user with it, no grant, and no refresh that loaded it.
  pub removed_user_hears_nothing :
      (ops : List Op) (h : Hub) (id frame : String) (c : Client)
      → All (λ op. regrants u p op ≡ false) ops
      → c.user_id ≡ u
      → lookup id (run ops (remove_project_for_user u p h)).clients ≡ some c
      → lookup id (broadcast p frame (run ops (remove_project_for_user u p h))).clients ≡ some c
  unfolding remove_project_for_user broadcast
  removed_user_hears_nothing ops h id frame c n same e =
      let after = run ops (remove_project_for_user u p h) in
      let excluded =
        Each-lookup Excluded id c after.clients e
          (run-Excluded ops (remove_project_for_user u p h) n (revoked_clients h.clients)) in
      rw (
        lookup-map_values (λ c. if contains p c.project_ids then try_send frame c else c) id
            after.clients,
        e,
        excluded same,
      )
