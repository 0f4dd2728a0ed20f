-- ===== src/Sse/Subscriber.antt =====
-- backend-api/internal/sse/subscriber.go: what the subscriber does with one message of the Redis
-- channel. The JSON codec is a parameter: what it decodes an envelope and a membership payload to
-- (`none`: an error), and json.Compact.
use code_intelegence.Base.{
  String, Bool, true, false, not, ◌&&◌, ◌||◌, Option, none, some, ◌==◌, if◌then◌else◌,
}
use Prim.Native.String.{◌++◌}
use code_intelegence.Sse.Hub.{
  Hub, broadcast, send_to_user, add_project_for_user, remove_project_for_user,
}
pub mod Routing

-- eventEnvelope; `raw` is its undecoded field data.
pub record EventEnvelope : Type 0 where
  pub event : String
  pub project_id : String
  pub raw : String
  pub origin : String

pub record Codec : Type 0 where
  pub envelope : String → Option EventEnvelope
  pub membership : String → Option String
  pub compact : String → Option String

abbrev pub sse_frame : String → String → String
sse_frame event body = "event: " ++ event ++ "\ndata: " ++ body ++ "\n\n"

abbrev pub is_member_event : String → Bool
is_member_event event =
    event == "member:added" || (event == "member:removed" || event == "member:role_updated")

-- The hub state changes for a membership event of a user.
abbrev pub delta : EventEnvelope → String → Hub → Hub
delta env user_id hub =
    if env.event == "member:added"
    then add_project_for_user user_id env.project_id hub
    else if env.event == "member:removed"
    then remove_project_for_user user_id env.project_id hub
    else hub

abbrev targeted : EventEnvelope → Option String → Hub → String × Hub
targeted env none hub = ("", hub)
targeted env (some user_id) hub =
    if user_id == "" then ("", hub) else (user_id, delta env user_id hub)

-- The targeted user, "" for none, and the hub.
unfoldable pub apply_membership_delta : Codec → EventEnvelope → Hub → String × Hub
apply_membership_delta codec env hub =
    if is_member_event env.event then targeted env (codec.membership env.raw) hub else ("", hub)

abbrev pub send_frame : EventEnvelope → Option String → String → Hub → Hub
send_frame env none target hub = hub
send_frame env (some body) target hub =
    if not (target == "")
    then send_to_user target (sse_frame env.event body) hub
    else broadcast env.project_id (sse_frame env.event body) hub

-- The message after its envelope was decoded.
abbrev handle_envelope : Codec → String → String → Option EventEnvelope → Hub → Hub
handle_envelope codec instance_id payload none hub = hub
handle_envelope codec instance_id payload (some env) hub =
    if env.project_id == "" || env.event == ""
    then hub
    else if not (instance_id == "") && (not (env.origin == "") && env.origin == instance_id)
    then hub
    else let (target, after) = apply_membership_delta codec env hub in
      send_frame env (codec.compact payload) target after

unfoldable pub handle_message : Codec → String → String → Hub → Hub
unfolding apply_membership_delta
handle_message codec instance_id payload hub =
    handle_envelope codec instance_id payload (codec.envelope payload) hub
