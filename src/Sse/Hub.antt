-- ===== src/Sse/Hub.antt =====
-- backend-api/internal/sse/hub.go: the hub of the connected SSE clients.
--
-- A client's pointer stands as a text, by which the map `clients` is an association list. A frame
-- that was sent and not yet read stands in `ch`. The methods hold the hub's lock, so that each is
-- one step; RefreshAllMemberships holds it twice, and is a step at each.
pub mod Steps
pub mod Bounds
pub mod Privacy
pub mod Closing
use code_intelegence.Base.{
  ℕ, String, Bool, true, false, Option, none, some, List, [], ◌∷◌, ◌++◌, ◌==◌, leb, ltb, length,
  contains, lookup, insert, delete, map_values, if◌then◌else◌,
}
use code_intelegence.Domain.Errors.{GoError, other, Result, ok, err}

abbrev pub client_buffer_size : ℕ
client_buffer_size = 16

-- project_ids is a set, `done` whether the channel Done is closed.
pub record Client : Type 0 where
  pub user_id : String
  pub project_ids : List String
  pub ch : List String
  pub done : Bool

unfoldable pub new_client : String → List String → Client
new_client user_id project_ids = record {
  user_id = user_id;
  project_ids = project_ids;
  ch = [];
  done = false;
}

abbrev pub MembershipLoader : Type 0
MembershipLoader = String → Result GoError (List String)

pub record Hub : Type 0 where
  pub clients : List (String × Client)
  pub max_conns : ℕ
  pub membership_loader : Option MembershipLoader

unfoldable pub new_hub : ℕ → Hub
new_hub max_conns = record { clients = []; max_conns = max_conns; membership_loader = none }

unfoldable pub has_capacity : Hub → Bool
has_capacity h = ltb (length h.clients) h.max_conns

unfoldable pub client_count : Hub → ℕ
client_count h = length h.clients

-- The error, if the hub is full.
unfoldable pub register : String → Client → Hub → Option GoError × Hub
register id c h =
    if leb h.max_conns (length h.clients)
    then (some (other "max SSE connections reached"), h)
    else (none, record h { clients = insert id c h.clients })

-- The client whose channel Done it closes, and the hub.
unfoldable pub unregister : String → Hub → Option Client × Hub
unregister id h = elim (lookup id h.clients) [
  | none ↦ (none, h)
  | some c ↦ (some (record c { done = true }), record h { clients = delete id h.clients })
]

-- select { case c.Ch <- frame: default: }
abbrev pub try_send : String → Client → Client
try_send frame c =
    if ltb (length c.ch) client_buffer_size then record c { ch = c.ch ++ frame ∷ [] } else c

abbrev on_clients : (Client → Client) → Hub → Hub
on_clients f h = record h { clients = map_values f h.clients }

unfoldable pub broadcast : String → String → Hub → Hub
broadcast project_id frame =
    on_clients (λ c. if contains project_id c.project_ids then try_send frame c else c)

unfoldable pub send_to_user : String → String → Hub → Hub
send_to_user user_id frame = on_clients (λ c. if c.user_id == user_id then try_send frame c else c)

-- c.ProjectIDs[projectID] = struct{}{}
unfoldable pub set_add : String → List String → List String
set_add p ps = if contains p ps then ps else p ∷ ps

-- delete(c.ProjectIDs, projectID)
unfoldable pub set_delete : String → List String → List String
set_delete p [] = []
set_delete p (q ∷ qs) = let rest = set_delete p qs in if q == p then rest else q ∷ rest

unfoldable pub add_project_for_user : String → String → Hub → Hub
add_project_for_user user_id project_id = on_clients (λ c.
    if c.user_id == user_id then record c { project_ids = set_add project_id c.project_ids } else c)

unfoldable pub remove_project_for_user : String → String → Hub → Hub
remove_project_for_user user_id project_id = on_clients (λ c.
    if c.user_id == user_id
    then record c { project_ids = set_delete project_id c.project_ids }
    else c)

unfoldable pub set_membership_loader : MembershipLoader → Hub → Hub
set_membership_loader fn h = record h { membership_loader = some fn }

-- RefreshAllMemberships under the read lock: the users of the clients.
unfoldable pub user_ids : List (String × Client) → List String
user_ids [] = []
user_ids ((id, c) ∷ rest) = set_add c.user_id (user_ids rest)

-- ... outside the lock: a user whose load fails is passed over.
unfoldable pub load_memberships : MembershipLoader → List String → List (String × List String)
load_memberships loader [] = []
load_memberships loader (uid ∷ uids) =
    let rest = load_memberships loader uids in
    elim (loader uid) [ ok pids ↦ (uid, pids) ∷ rest | err e ↦ rest ]

-- ... and under the write lock.
unfoldable pub apply_memberships : List (String × List String) → Hub → Hub
apply_memberships memberships = on_clients (λ c. elim (lookup c.user_id memberships) [
  | some pids ↦ record c { project_ids = pids }
  | none ↦ c
])

-- RefreshAllMemberships when nothing comes between its steps.
unfoldable pub refresh_all_memberships : Hub → Hub
unfolding user_ids load_memberships apply_memberships
refresh_all_memberships h = elim h.membership_loader [
  | none ↦ h
  | some loader ↦ apply_memberships (load_memberships loader (user_ids h.clients)) h
]
