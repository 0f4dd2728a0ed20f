-- ===== src/Sse/Hub/Bounds.antt =====
-- The sizes of the hub and of its clients' channels over time.
use code_intelegence.Base.{
  ◌≤◌, String, ◌≡◌, refl, Option, none, some, List, [], ◌∷◌, arith, length, length-append, lookup,
  length-insert_le, length-insert_present, length-delete_le, length-map_values, map_values, Each,
  Each-insert, Each-delete, Each-map_values, Each-lookup, Bool-cases, Option-cases, inl, inr, leb,
}
use code_intelegence.Sse.Hub.{
  Hub, Client, client_buffer_size, new_client, register, unregister, broadcast, send_to_user,
  add_project_for_user, remove_project_for_user, apply_memberships, try_send,
}
use code_intelegence.Sse.Hub.Steps.{
  Op, connect, disconnect, read, publish, notify, grant, revoke, load, step, run, rest_of,
  take_frame,
}

-- The channel of a client holds no more than its capacity.
abbrev pub Fits : Client → Type 0
Fits c = length c.ch ≤ client_buffer_size

-- The hub is within its limit of connections, and every channel within its capacity.
pub record IsBounded (h : Hub) : Type 0 where
  pub room : length h.clients ≤ h.max_conns
  pub channels : Each Fits h.clients

try_send-Fits : (frame : String) (c : Client) → Fits c → Fits (try_send frame c)
try_send-Fits frame c h = ground (arith, length-append c.ch (frame ∷ []))

rest_of-length : (xs : List String) → length (rest_of xs) ≤ length xs
rest_of-length [] = omega arith
rest_of-length (x ∷ xs) = omega arith

module _ (h : Hub) (b : IsBounded h) where
  map_values-IsBounded :
      (f : Client → Client)
      → ((c : Client) → Fits c → Fits (f c))
      → IsBounded (record h { clients = map_values f h.clients })
  map_values-IsBounded f keeps = record {
    room = omega (arith, length-map_values f h.clients, b.room);
    channels = Each-map_values Fits f h.clients keeps b.channels;
  }

  register-IsBounded : (id : String) (c : Client) → Fits c → IsBounded (register id c h).1
  unfolding register
  register-IsBounded id c fits = elim (Bool-cases (leb h.max_conns (length h.clients))) [
    | inl e ↦ rw (e, register) b
    | inr e ↦
        rw (e, register)
          (record {
            room = ground (arith, length-insert_le id c h.clients);
            channels = Each-insert Fits id c h.clients fits b.channels;
          })
  ]

  unregister-IsBounded : (id : String) → IsBounded (unregister id h).1
  unfolding unregister
  unregister-IsBounded id = elim (Option-cases (lookup id h.clients)) [
    | inl e ↦ rw (e, unregister) b
    | inr (c, e) ↦
        rw (e, unregister)
          (record {
            room = omega (arith, length-delete_le id h.clients, b.room);
            channels = Each-delete Fits id h.clients b.channels;
          })
  ]

  read-IsBounded :
      (id : String) (found : Option Client)
      → lookup id h.clients ≡ found
      → IsBounded (take_frame id found h)
  read-IsBounded id none e = b
  read-IsBounded id (some c) e =
      let fits : Fits c = Each-lookup Fits id c h.clients e b.channels in
      record {
        room = omega (
          arith,
          length-insert_present id (record c { ch = rest_of c.ch }) c h.clients e,
          b.room,
        );
        channels =
            Each-insert Fits id _ h.clients (omega (arith, rest_of-length c.ch, fits)) b.channels;
      }

  step-IsBounded : (op : Op) → IsBounded (step op h)
  unfolding step new_client broadcast send_to_user add_project_for_user remove_project_for_user
      apply_memberships
  step-IsBounded (connect id u ps) = register-IsBounded id _ (omega arith)
  step-IsBounded (disconnect id) = unregister-IsBounded id
  step-IsBounded (read id) = read-IsBounded id (lookup id h.clients) refl
  step-IsBounded (publish p frame) =
      map_values-IsBounded _ λ c f. ground (arith, try_send-Fits frame c f)
  step-IsBounded (notify u frame) =
      map_values-IsBounded _ λ c f. ground (arith, try_send-Fits frame c f)
  step-IsBounded (grant u p) = map_values-IsBounded _ λ c f. ground arith
  step-IsBounded (revoke u p) = map_values-IsBounded _ λ c f. ground arith
  step-IsBounded (load ms) = map_values-IsBounded _ λ c f. ground arith

-- A hub within its limit of connections, with no channel over its capacity of 16 frames, stays so
-- under any sequence of connections, disconnections, reads, events and membership changes.
pub run-IsBounded : (ops : List Op) (h : Hub) → IsBounded h → IsBounded (run ops h)
unfolding run
run-IsBounded [] h b = b
run-IsBounded (op ∷ ops) h b = run-IsBounded ops (step op h) (step-IsBounded h b op)
