-- ===== src/Group/Keeping.antt =====
-- private-group-service.ts: the handlers and the methods keep the database intact.
pub mod Handlers
pub mod Methods
pub mod Uploads
pub mod Routed
pub mod Sequences
use dchat_desktop.Common.{ℕ, String, Option, List, [], ◌∷◌}
use dchat_desktop.Types.{Message, MessageData}
use dchat_desktop.Types.Raw.{RawMember, RawOptions}
use dchat_desktop.Types.Wire.{Packet}
use dchat_desktop.Store.Intact.Rules.{Intact, intact_rules}
use dchat_desktop.Group.Platform.{Platform}
use dchat_desktop.Group.Session.{get_or_create_group_session, push_session, push_group, announce}
use dchat_desktop.Group.Sync.{
  recount, sync_members_to_all, sync_to, send_option_response, send_options, if_active,
  on_member_request, on_option_request, merge_member, on_member_response, set_options,
  on_option_response, request_members,
}
use dchat_desktop.Exec.{Exec, Keeps, keeps_rules}

pub get_or_create_group_session-Intact :
    (group_id name : String) (now : ℕ)
    → Keeps Intact (get_or_create_group_session group_id name now)
unfolding get_or_create_group_session
get_or_create_group_session-Intact group_id name now = search (keeps_rules, intact_rules) depth 10

pub push_session-Intact : (group_id : String) → Keeps Intact (push_session group_id)
unfolding push_session
push_session-Intact group_id = search (keeps_rules, intact_rules) depth 10

pub push_group-Intact : (group_id : String) → Keeps Intact (push_group group_id)
unfolding push_group
push_group-Intact group_id = search (keeps_rules, intact_rules) depth 10

pub announce-Intact :
    (group_id : String) (m : Message) (preview : String) (now : ℕ)
    → Keeps Intact (announce group_id m preview now)
unfolding announce
announce-Intact group_id m preview now =
    search (keeps_rules, intact_rules, push_session-Intact) depth 15

pub recount-Intact : (group_id : String) (now : ℕ) → Keeps Intact (recount group_id now)
unfolding recount
recount-Intact group_id now = search (keeps_rules, intact_rules) depth 10

sync_to-Intact :
    (dests : List String) (group_id id : String) (now : ℕ)
    → Keeps Intact (sync_to dests group_id id now)
sync_to-Intact [] group_id id now = search keeps_rules
sync_to-Intact (d ∷ ds) group_id id now = search (keeps_rules, intact_rules) depth 10

pub sync_members_to_all-Intact :
    (group_id id : String) (now : ℕ) → Keeps Intact (sync_members_to_all group_id id now)
unfolding sync_members_to_all
sync_members_to_all-Intact group_id id now =
    search (keeps_rules, intact_rules, sync_to-Intact) depth 15

send_options-Intact : (ds : List String) (packet : Packet) → Keeps Intact (send_options ds packet)
unfolding send_options
send_options-Intact [] packet = search (keeps_rules, intact_rules)
send_options-Intact (d ∷ []) packet = search (keeps_rules, intact_rules)
send_options-Intact (d ∷ e ∷ ds) packet = search (keeps_rules, intact_rules)

pub send_option_response-Intact :
    (group_id : String) (ds : List String) (id : String) (now : ℕ)
    → Keeps Intact (send_option_response group_id ds id now)
unfolding send_option_response
send_option_response-Intact group_id [] id now = search keeps_rules
send_option_response-Intact group_id (d ∷ ds) id now =
    search (keeps_rules, send_options-Intact) depth 10

pub request_members-Intact :
    (to group_id id : String) (now : ℕ) → Keeps Intact (request_members to group_id id now)
unfolding request_members
request_members-Intact to group_id id now = search (keeps_rules, intact_rules) depth 10

pub ruleset session_rules = (
  keeps_rules, intact_rules, get_or_create_group_session-Intact, push_session-Intact,
  push_group-Intact, announce-Intact, recount-Intact, sync_members_to_all-Intact,
  send_option_response-Intact, request_members-Intact,
)

module _ (p : Platform) where
  if_active-Intact :
      (src : String) (d : MessageData) (answer : String → Exec (Unit {0}))
      → ((group_id : String) → Keeps Intact (answer group_id))
      → Keeps Intact (if_active p src d answer)
  unfolding if_active
  if_active-Intact src d answer h = search (session_rules, h) depth 15

  pub on_member_request-Intact :
      (src : String) (d : MessageData) (id : String) (now : ℕ)
      → Keeps Intact (on_member_request p src d id now)
  unfolding on_member_request
  on_member_request-Intact src d id now = search (session_rules, if_active-Intact) depth 15

  pub on_option_request-Intact :
      (src : String) (d : MessageData) (id : String) (now : ℕ)
      → Keeps Intact (on_option_request p src d id now)
  unfolding on_option_request
  on_option_request-Intact src d id now = search (session_rules, if_active-Intact) depth 15

  merge_member-Intact : (raw : RawMember) → Keeps Intact (merge_member raw)
  unfolding merge_member
  merge_member-Intact raw = search session_rules depth 15

  pub on_member_response-Intact :
      (d : MessageData) (now : ℕ) → Keeps Intact (on_member_response p d now)
  unfolding on_member_response
  on_member_response-Intact d now = search (session_rules, merge_member-Intact) depth 20

  set_options-Intact :
      (o : RawOptions) (group_id : String) (now : ℕ) → Keeps Intact (set_options o group_id now)
  unfolding set_options
  set_options-Intact o group_id now = search session_rules depth 15

  pub on_option_response-Intact :
      (d : MessageData) (now : ℕ) → Keeps Intact (on_option_response p d now)
  unfolding on_option_response
  on_option_response-Intact d now = search (session_rules, set_options-Intact) depth 20
