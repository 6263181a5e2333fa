-- ===== src/Group/Keeping/Handlers.antt =====
-- private-group-service.ts: the handlers that join, take in, remove and receive, and the methods of
-- the user.
use dchat_desktop.Common.{ℕ, String, Bool, Option, List, [], ◌∷◌}
use dchat_desktop.Types.{
  Message, MessageData, ContentType, group_invitation, group_accept, group_subscribe, group_quit,
  group_option_request, group_option_response, group_member_request, group_member_response,
}
use dchat_desktop.Types.Group.{PrivateGroup, Member}
use dchat_desktop.Store.Intact.Rules.{Intact}
use dchat_desktop.Group.Platform.{Platform}
use dchat_desktop.Group.Payload.{Invited}
use dchat_desktop.Group.Owner.{throw_if}
use dchat_desktop.Group.Joining.{show_invitation, store_invitation, on_invitation_received}
use dchat_desktop.Group.Welcome.{
  announce_join, tell_others, update_version, store_member, take_in, on_invitee_accept,
  on_member_subscribe,
}
use dchat_desktop.Group.Leaving.{remove_member, on_member_quit}
use dchat_desktop.Group.Control.{handle_control, handle_kind}
use dchat_desktop.Group.Keeping.{
  session_rules, on_member_request-Intact, on_option_request-Intact, on_member_response-Intact,
  on_option_response-Intact,
}
use dchat_desktop.Exec.{Error, Keeps, Keeps-pure}

pub throw_if-Intact : (test : Bool) (e : Error) → Keeps Intact (throw_if test e)
unfolding throw_if
throw_if-Intact test e = search session_rules

show_invitation-Intact :
    (i : Invited) (m : Message) (now : ℕ) → Keeps Intact (show_invitation i m now)
unfolding show_invitation
show_invitation-Intact i m now = search session_rules depth 30

store_invitation-Intact :
    (i : Invited) (src own : String) (d : MessageData) (now : ℕ)
    → Keeps Intact (store_invitation i src own d now)
unfolding store_invitation
store_invitation-Intact i src own d now = search (session_rules, show_invitation-Intact) depth 30

announce_join-Intact :
    (group_id src : String) (d : MessageData) (now : ℕ)
    → Keeps Intact (announce_join group_id src d now)
unfolding announce_join
announce_join-Intact group_id src d now = search session_rules depth 15

tell_others-Intact :
    (group_id : String) (m : Member) (ds : List String) (uuid : ℕ → String) (now : ℕ)
    → Keeps Intact (tell_others group_id m ds uuid now)
unfolding tell_others
tell_others-Intact group_id m [] uuid now = search session_rules
tell_others-Intact group_id m (d ∷ ds) uuid now = search session_rules depth 15

remove_member-Intact :
    (group_id invitee src : String) (d : MessageData) (now : ℕ)
    → Keeps Intact (remove_member group_id invitee src d now)
unfolding remove_member
remove_member-Intact group_id invitee src d now = search session_rules depth 20

on_member_subscribe-Intact :
    (src : String) (d : MessageData) (now : ℕ) → Keeps Intact (on_member_subscribe src d now)
unfolding on_member_subscribe
on_member_subscribe-Intact src d now = search (session_rules, announce_join-Intact) depth 20

ruleset member_rules = (
  session_rules, throw_if-Intact, store_invitation-Intact, announce_join-Intact, tell_others-Intact,
  remove_member-Intact,
)

module _ (p : Platform) where
  on_invitation_received-Intact :
      (src : String) (d : MessageData) (now : ℕ) → Keeps Intact (on_invitation_received p src d now)
  unfolding on_invitation_received
  on_invitation_received-Intact src d now = search member_rules depth 20

  update_version-Intact :
      (group : Option PrivateGroup) (group_id : String) (active : List Member) (now : ℕ)
      → Keeps Intact (update_version p group group_id active now)
  unfolding update_version
  update_version-Intact group group_id active now = search member_rules depth 15

  store_member-Intact : (m : Member) (now : ℕ) → Keeps Intact (store_member p m now)
  unfolding store_member
  store_member-Intact m now = search (member_rules, update_version-Intact) depth 20

  take_in-Intact :
      (m : Member) (src : String) (d : MessageData) (uuid : ℕ → String) (now : ℕ)
      → Keeps Intact (take_in p m src d uuid now)
  unfolding take_in
  take_in-Intact m src d uuid now = search (member_rules, store_member-Intact) depth 30

  on_invitee_accept-Intact :
      (src : String) (d : MessageData) (uuid : ℕ → String) (now : ℕ)
      → Keeps Intact (on_invitee_accept p src d uuid now)
  unfolding on_invitee_accept
  on_invitee_accept-Intact src d uuid now = search (member_rules, take_in-Intact) depth 20

  on_member_quit-Intact :
      (src : String) (d : MessageData) (now : ℕ) → Keeps Intact (on_member_quit p src d now)
  unfolding on_member_quit
  on_member_quit-Intact src d now = search member_rules depth 20

  handle_kind-Intact :
      (src : String) (d : MessageData) (uuid : ℕ → String) (now : ℕ) (t : ContentType)
      → Keeps Intact (handle_kind p src d uuid now t)
  unfolding handle_kind
  handle_kind-Intact src d uuid now group_invitation = on_invitation_received-Intact src d now
  handle_kind-Intact src d uuid now group_accept = on_invitee_accept-Intact src d uuid now
  handle_kind-Intact src d uuid now group_subscribe = on_member_subscribe-Intact src d now
  handle_kind-Intact src d uuid now group_quit = on_member_quit-Intact src d now
  handle_kind-Intact src d uuid now group_member_response = on_member_response-Intact p d now
  handle_kind-Intact src d uuid now group_member_request = on_member_request-Intact p src d _ now
  handle_kind-Intact src d uuid now group_option_request = on_option_request-Intact p src d _ now
  handle_kind-Intact src d uuid now group_option_response = on_option_response-Intact p d now
  handle_kind-Intact src d uuid now _ = Keeps-pure tt

  pub handle_control-Intact :
      (src : String) (d : MessageData) (uuid : ℕ → String) (now : ℕ)
      → Keeps Intact (handle_control p src d uuid now)
  unfolding handle_control
  handle_control-Intact src d uuid now = handle_kind-Intact src d uuid now _
