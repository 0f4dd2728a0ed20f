-- ===== src/Sse/Hub/Closing.antt =====
-- How often the channel Done of a client is closed.
use code_intelegence.Base.{
  ℕ, ◌+◌, ◌≤◌, String, ◌≡◌, refl, Option, none, some, List, [], ◌∷◌, arith, eq_iff, lookup,
  lookup-insert, lookup-delete, lookup-map_values, map_values, ◌==◌, if◌then◌else◌,
}
use code_intelegence.Sse.Hub.{
  Hub, Client, new_client, register, unregister, broadcast, send_to_user, add_project_for_user,
  remove_project_for_user, apply_memberships,
}
use code_intelegence.Sse.Hub.Steps.{
  Op, connect, disconnect, read, publish, notify, grant, revoke, load, step, take_frame, rest_of,
}

abbrev one_if : {A : Type 0} → Option A → ℕ
one_if none = 0
one_if (some a) = 1

-- Whether a step closes the channel Done of the client `id`, and whether it registers it.
pub closes : String → Op → Hub → ℕ
unfolding unregister
closes id (disconnect k) h = if k == id then one_if (unregister k h).0 else 0
closes id _ h = 0

pub connects : String → Op → ℕ
connects id (connect k u ps) = if k == id then 1 else 0
connects id _ = 0

pub total_closes : String → List Op → Hub → ℕ
total_closes id [] h = 0
total_closes id (op ∷ ops) h = closes id op h + total_closes id ops (step op h)

pub total_connects : String → List Op → ℕ
total_connects id [] = 0
total_connects id (op ∷ ops) = connects id op + total_connects id ops

module _ (id : String) where
  abbrev present : Hub → ℕ
  present h = one_if (lookup id h.clients)

  map_present :
      (f : Client → Client) (m : List (String × Client))
      → one_if (lookup id (map_values f m)) ≡ one_if (lookup id m)
  map_present f m = rw (lookup-map_values f id m) (ground arith)

  take_present :
      (k : String) (h : Hub) (found : Option Client)
      → lookup k h.clients ≡ found
      → present (take_frame k found h) ≤ present h
  take_present k h none e = omega arith
  take_present k h (some c) e =
      ground (arith, lookup-insert k id (record c { ch = rest_of c.ch }) h.clients, eq_iff k id)

  closes-step :
      (op : Op) (h : Hub) → closes id op h + present (step op h) ≤ connects id op + present h
  unfolding closes connects step register unregister broadcast send_to_user add_project_for_user
      remove_project_for_user apply_memberships
  closes-step (connect k u ps) h = ground (arith, lookup-insert k id (new_client u ps) h.clients)
  closes-step (disconnect k) h = ground (arith, lookup-delete k id h.clients, eq_iff k id)
  closes-step (read k) h = omega (arith, take_present k h (lookup k h.clients) refl)
  closes-step (publish p frame) h = omega (arith, map_present _ h.clients)
  closes-step (notify u frame) h = omega (arith, map_present _ h.clients)
  closes-step (grant u p) h = omega (arith, map_present _ h.clients)
  closes-step (revoke u p) h = omega (arith, map_present _ h.clients)
  closes-step (load ms) h = omega (arith, map_present _ h.clients)

  all_steps : (ops : List Op) (h : Hub) → total_closes id ops h ≤ total_connects id ops + present h
  unfolding total_closes total_connects
  all_steps [] h = omega arith
  all_steps (op ∷ ops) h = omega (arith, closes-step op h, all_steps ops (step op h))

  -- Over any sequence of steps on a hub that does not hold a client, the channel Done of the client
  -- is closed no more often than the client was passed to Register; so a client that is registered
  -- once is closed at most once, however often Unregister is called.
  pub closed_once :
      (ops : List Op) (h : Hub)
      → lookup id h.clients ≡ none
      → total_closes id ops h ≤ total_connects id ops
  closed_once ops h absent = ground (arith, all_steps ops h)
