-- ===== src/Sse/Hub/Steps.antt =====
-- The hub over time: its methods as the HTTP handlers, the subscriber and the refresh call them.
use code_intelegence.Base.{String, List, [], ◌∷◌, Option, none, some, lookup, insert}
use code_intelegence.Sse.Hub.{
  Hub, Client, new_client, register, unregister, broadcast, send_to_user, add_project_for_user,
  remove_project_for_user, apply_memberships,
}

-- `load` is the second half of a refresh, with whatever the first half loaded at some earlier time;
-- `read` is a handler that takes a frame from its client's channel.
pub data Op : Type 0 where
  connect : String → String → List String → Op
  disconnect : String → Op
  read : String → Op
  publish : String → String → Op
  notify : String → String → Op
  grant : String → String → Op
  revoke : String → String → Op
  load : List (String × List String) → Op

abbrev pub rest_of : List String → List String
rest_of [] = []
rest_of (x ∷ xs) = xs

abbrev pub take_frame : String → Option Client → Hub → Hub
take_frame id none h = h
take_frame id (some c) h = record h {
  clients = insert id (record c { ch = rest_of c.ch }) h.clients;
}

unfoldable pub step : Op → Hub → Hub
unfolding new_client register unregister broadcast send_to_user add_project_for_user
    remove_project_for_user apply_memberships
step (connect id user_id project_ids) h = (register id (new_client user_id project_ids) h).1
step (disconnect id) h = (unregister id h).1
step (read id) h = take_frame id (lookup id h.clients) h
step (publish project_id frame) h = broadcast project_id frame h
step (notify user_id frame) h = send_to_user user_id frame h
step (grant user_id project_id) h = add_project_for_user user_id project_id h
step (revoke user_id project_id) h = remove_project_for_user user_id project_id h
step (load memberships) h = apply_memberships memberships h

unfoldable pub run : List Op → Hub → Hub
unfolding step
run [] h = h
run (op ∷ ops) h = run ops (step op h)
