-- ===== src/Examples/Events.antt =====
-- Two clients of the hub, and the messages that concern them.
use code_intelegence.Base.{
  ℕ, zero, suc, ◌+◌, ◌≤◌, ◌<◌, String, ◌≡◌, ◌≢◌, refl, Bool, true, false, not, ◌&&◌, ◌||◌, Option,
  none, some, List, [], ◌∷◌, ◌++◌, arith, eq_iff, ◌==◌, inl, inr, ◌⊎◌, if◌then◌else◌, lookup,
  insert, delete, length, All, Each, contains,
}
use code_intelegence.Sse.Hub.{
  Hub, Client, new_client, broadcast, remove_project_for_user, add_project_for_user,
}
use code_intelegence.Sse.Hub.Steps.{Op, connect, disconnect, publish, grant, run}
use code_intelegence.Sse.Hub.Bounds.{IsBounded, run-IsBounded}
use code_intelegence.Sse.Hub.Privacy.{regrants, removed_user_hears_nothing}
use code_intelegence.Sse.Hub.Closing.{total_closes, total_connects, closed_once}
use code_intelegence.Sse.Subscriber.{EventEnvelope, Codec, handle_message}
use code_intelegence.Sse.Subscriber.Routing.{member_event_private, removal_message_silences}

abbrev ann : Client
ann = record { user_id = "ann"; project_ids = "p" ∷ []; ch = []; done = false }

abbrev bob : Client
bob = record { user_id = "bob"; project_ids = "p" ∷ "q" ∷ []; ch = []; done = false }

abbrev hub : Hub
hub = record { clients = ("c1", ann) ∷ ("c2", bob) ∷ []; max_conns = 3; membership_loader = none }

hub-IsBounded : IsBounded hub
hub-IsBounded = record { room = omega arith; channels = (omega arith, (omega arith, tt)) }

abbrev ops : List Op
ops =
    grant "ann" "q"
    ∷ connect "c3" "eve" ("p" ∷ [])
    ∷ publish "p" "f"
    ∷ disconnect "c3"
    ∷ disconnect "c3"
    ∷ []

run-IsBounded_example : IsBounded (run ops hub)
run-IsBounded_example = run-IsBounded ops hub hub-IsBounded

c3_absent : lookup "c3" hub.clients ≡ none
unfolding lookup
c3_absent = refl

closed_once_example : total_closes "c3" ops hub ≤ total_connects "c3" ops
closed_once_example = closed_once "c3" ops hub c3_absent

-- After bob was removed from "p".
abbrev bob_outside : Client
bob_outside = record bob { project_ids = "q" ∷ [] }

bob_stays : lookup "c2" (run ops (remove_project_for_user "bob" "p" hub)).clients ≡ some bob_outside
unfolding lookup run code_intelegence.Base.map_values insert delete
    code_intelegence.Sse.Hub.set_delete
bob_stays = refl

kept : All (λ op. regrants "bob" "p" op ≡ false) ops
unfolding regrants
kept = (refl, (refl, (refl, (refl, (refl, tt)))))

removed_user_hears_nothing_example :
    lookup "c2" (broadcast "p" "g" (run ops (remove_project_for_user "bob" "p" hub))).clients
    ≡ some bob_outside
removed_user_hears_nothing_example =
    removed_user_hears_nothing "bob" "p" ops hub "c2" "g" bob_outside kept refl bob_stays

abbrev removal : EventEnvelope
removal = record { event = "member:removed"; project_id = "p"; raw = "bob"; origin = "other" }

abbrev codec : Codec
codec = record { envelope = λ _. some removal; membership = λ raw. some raw; compact = λ s. some s }

abbrev name : String
name = "bob"

bob_named : name ≢ ""
bob_named e = ground (arith, eq_iff name "")

abbrev user : String
user = "ann"

ann_is_not_bob : user ≢ "bob"
ann_is_not_bob e = ground (arith, eq_iff user "bob")

ann_there : lookup "c1" hub.clients ≡ some ann
unfolding lookup
ann_there = refl

member_event_private_example : lookup "c1" (handle_message codec "self" "{}" hub).clients ≡ some ann
member_event_private_example =
    member_event_private codec "self" "{}" "bob" removal refl refl bob_named hub "c1" ann refl
      ann_there ann_is_not_bob

abbrev project : String
project = "p"

project_named : project ≢ ""
project_named e = ground (arith, eq_iff project "")

abbrev origin : String
origin = "other"

foreign : origin ≢ "self"
foreign e = ground (arith, eq_iff origin "self")

-- The frame of the removal itself reached him.
abbrev bob_told : Client
bob_told = record bob_outside { ch = "event: member:removed\ndata: {}\n\n" ∷ [] }

bob_told_there :
    lookup "c2" (run ops (handle_message codec "self" "{}" hub)).clients ≡ some bob_told
unfolding lookup run code_intelegence.Base.map_values handle_message insert delete
    code_intelegence.Sse.Hub.set_delete
bob_told_there = refl

removal_message_silences_example :
    lookup "c2" (broadcast "p" "g" (run ops (handle_message codec "self" "{}" hub))).clients
    ≡ some bob_told
removal_message_silences_example =
    removal_message_silences codec "self" "{}" "bob" removal refl refl bob_named hub "{}" ops "c2"
      "g" bob_told refl project_named foreign refl kept refl bob_told_there
