-- ===== src/Sse/Subscriber/Routing.antt =====
-- Whom a message of the Redis channel reaches.
use code_intelegence.Base.{
  String, ◌≡◌, ◌≢◌, refl, true, false, not, ◌&&◌, ◌||◌, some, ◌==◌, arith, eq_iff, List, All,
  Bool-cases, Option-cases, ◌⊎◌, inl, inr, lookup, lookup-map_values, ◌∷◌,
}
use code_intelegence.Sse.Hub.{
  Hub, Client, broadcast, send_to_user, add_project_for_user, remove_project_for_user,
}
use code_intelegence.Sse.Hub.Steps.{Op, notify, step, run}
use code_intelegence.Sse.Hub.Privacy.{regrants, removed_user_hears_nothing}
use code_intelegence.Sse.Subscriber.{
  delta, send_frame, EventEnvelope, Codec, sse_frame, is_member_event, apply_membership_delta,
  handle_message,
}

-- What is done for one user leaves the clients of the others.
module _ (u id : String) (c : Client) (other : c.user_id ≢ u) (hub : Hub)
    (here : lookup id hub.clients ≡ some c) where
  send_other : (frame : String) → lookup id (send_to_user u frame hub).clients ≡ some c
  unfolding send_to_user
  send_other frame =
      rw (lookup-map_values _ id hub.clients, here) (ground (arith, eq_iff c.user_id u))

  delta_other : (env : EventEnvelope) → lookup id (delta env u hub).clients ≡ some c
  unfolding add_project_for_user remove_project_for_user
  delta_other env = elim (Bool-cases (env.event == "member:added")) [
    | inl e ↦ rw (e, lookup-map_values _ id hub.clients, here) (ground (arith, eq_iff c.user_id u))
    | inr n ↦ elim (Bool-cases (env.event == "member:removed")) [
      | inl e ↦
          rw (n, e, lookup-map_values _ id hub.clients, here) (ground (arith, eq_iff c.user_id u))
      | inr e ↦ rw (n, e) here
    ]
  ]

module _ (codec : Codec) (instance_id payload u : String) (env : EventEnvelope)
    (decoded : codec.envelope payload ≡ some env) (named : codec.membership env.raw ≡ some u)
    (someone : u ≢ "") where
  delta_of :
      (hub : Hub)
      → is_member_event env.event ≡ true
      → apply_membership_delta codec env hub ≡ (u, delta env u hub)
  unfolding apply_membership_delta
  delta_of hub member = rw (member, named) (ground (arith, eq_iff u ""))

  sent_to :
      (hub : Hub) (body : String)
      → send_frame env (some body) u hub ≡ send_to_user u (sse_frame env.event body) hub
  sent_to hub body = ground (arith, eq_iff u "")

  -- A message is passed over, or its frame is sent after its membership change.
  handle_member_event :
      (hub : Hub)
      → is_member_event env.event ≡ true
      → (handle_message codec instance_id payload hub ≡ hub)
        ⊎ (handle_message codec instance_id payload hub
            ≡ send_frame env (codec.compact payload) u (delta env u hub))
  unfolding handle_message
  handle_member_event hub member = elim (Bool-cases (env.project_id == "" || env.event == "")) [
    | inl e ↦ inl (rw (decoded, e))
    | inr n ↦
        elim (Bool-cases
          (not (instance_id == "") && (not (env.origin == "") && env.origin == instance_id))) [
            | inl e ↦ inl (rw (decoded, n, e))
            | inr k ↦ inr (rw (decoded, n, k, delta_of hub member))
          ]
  ]

  handle_removal :
      (hub : Hub) (body : String)
      → env.event ≡ "member:removed"
      → env.project_id ≢ ""
      → env.origin ≢ instance_id
      → codec.compact payload ≡ some body
      → handle_message codec instance_id payload hub
        ≡ send_to_user u (sse_frame env.event body) (remove_project_for_user u env.project_id hub)
  unfolding handle_message
  handle_removal hub body event project origin compacted =
      let full : (env.project_id == "" || env.event == "") ≡ false =
        rw event (ground (arith, eq_iff env.project_id "")) in
      let foreign : (not (instance_id == "")
            && (not (env.origin == "") && env.origin == instance_id))
          ≡ false =
        ground (arith, eq_iff env.origin instance_id) in
      let changed : delta env u hub ≡ remove_project_for_user u env.project_id hub =
        rw event refl in
      rw (
        decoded,
        full,
        foreign,
        delta_of hub (rw event refl),
        compacted,
        sent_to (delta env u hub) body,
        changed,
      )

  -- A membership event that names a user changes no client of any other user: neither the projects
  -- that it hears of nor the frames that it was sent.
  pub member_event_private :
      (hub : Hub) (id : String) (c : Client)
      → is_member_event env.event ≡ true
      → lookup id hub.clients ≡ some c
      → c.user_id ≢ u
      → lookup id (handle_message codec instance_id payload hub).clients ≡ some c
  member_event_private hub id c member here other = elim (handle_member_event hub member) [
    | inl e ↦ rw e here
    | inr e ↦ rw e (elim (Option-cases (codec.compact payload)) [
      | inl n ↦ rw n (delta_other u id c other hub here env)
      | inr (body, y) ↦
          rw (y, sent_to (delta env u hub) body)
            (send_other u id c other (delta env u hub) (delta_other u id c other hub here env)
              (sse_frame env.event body))
    ])
  ]

  -- After another instance's well-formed message that a user was removed from a project was handled, a broadcast
  -- to the project changes nothing at any client of that user, whatever happened in between, as
  -- long as nothing gave the project back.
  pub removal_message_silences :
      (hub : Hub) (body : String) (ops : List Op) (id frame : String) (c : Client)
      → env.event ≡ "member:removed"
      → env.project_id ≢ ""
      → env.origin ≢ instance_id
      → codec.compact payload ≡ some body
      → All (λ op. regrants u env.project_id op ≡ false) ops
      → c.user_id ≡ u
      → lookup id (run ops (handle_message codec instance_id payload hub)).clients ≡ some c
      → lookup id
          (broadcast env.project_id frame
            (run ops (handle_message codec instance_id payload hub))).clients
        ≡ some c
  unfolding run step regrants
  removal_message_silences hub body ops id frame c event project origin compacted kept same =
      let sent = notify u (sse_frame env.event body) in
      let handled : handle_message codec instance_id payload hub
          ≡ step sent (remove_project_for_user u env.project_id hub) =
        handle_removal hub body event project origin compacted in
      rw handled
        (removed_user_hears_nothing u env.project_id (sent ∷ ops) hub id frame c (refl, kept) same)
