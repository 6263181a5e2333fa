-- ===== src/Group/Keeping/Methods.antt =====
-- private-group-service.ts: the methods of the user, and the messages of a group.
use dchat_desktop.Common.{ℕ, String, List, [], ◌∷◌}
use dchat_desktop.Types.{Message, MessageData, ContentType, Status}
use dchat_desktop.Types.Group.{PrivateGroup, Member}
use dchat_desktop.Store.Intact.Rules.{Intact}
use dchat_desktop.Chat.Route.Safety.{show_notification-Intact}
use dchat_desktop.Group.Platform.{Platform, Identity}
use dchat_desktop.Group.Owner.{create_group, begin_invite, finish_invite, invite, kick_out}
use dchat_desktop.Group.Joining.{begin_accept, finish_accept, accept_invitation}
use dchat_desktop.Group.Leaving.{tell_owner, finish_quit, begin_quit, quit}
use dchat_desktop.Group.Messages.{
  Media, try_catch, or_try, finish_with, send_to_all, send_group_message, fetch_group_media,
  store_group_message, handle_group_message,
}
use dchat_desktop.Group.Sync.{get_members, request_member_sync}
use dchat_desktop.Group.Keeping.{session_rules}
use dchat_desktop.Group.Keeping.Handlers.{throw_if-Intact}
use dchat_desktop.Exec.{Exec, Result, ok, err, World, Keeps, keeps_rules}

module _ {A : Type 0} where
  or_try-Intact :
      (r : Result A) (w : World) (handler : Exec A)
      → Intact w
      → Keeps Intact handler
      → Intact (or_try (r, w) handler).1
  or_try-Intact (ok a) w handler v h = v
  or_try-Intact (err e) w handler v h = h.at w v

  pub try_catch-Intact :
      (body handler : Exec A)
      → Keeps Intact body
      → Keeps Intact handler
      → Keeps Intact (try_catch body handler)
  unfolding try_catch
  try_catch-Intact body handler b h = record {
    at = λ w v. or_try-Intact (body w).0 (body w).1 handler (b.at w v) h;
  }

pub finish_with-Intact :
    (status : Status) (m : Message) (now : ℕ) → Keeps Intact (finish_with status m now)
unfolding finish_with
finish_with-Intact status m now = search session_rules depth 10

pub send_to_all-Intact :
    (dests : List String) (d : MessageData) (m : Message) (now : ℕ)
    → Keeps Intact (send_to_all dests d m now)
unfolding send_to_all
send_to_all-Intact [] d m now = finish_with-Intact _ m now
send_to_all-Intact (dest ∷ dests) d m now =
    search (session_rules, try_catch-Intact, finish_with-Intact) depth 15

pub send_group_message-Intact :
    (group_id content : String) (t : ContentType) (id : String) (now : ℕ)
    → Keeps Intact (send_group_message group_id content t id now)
unfolding send_group_message
send_group_message-Intact group_id content t id now =
    search (session_rules, send_to_all-Intact) depth 30

fetch_group_media-Intact :
    (media : Media) (d : MessageData) (m : Message) (now : ℕ)
    → Keeps Intact (fetch_group_media media d m now)
unfolding fetch_group_media
fetch_group_media-Intact media d m now = search session_rules depth 20

store_group_message-Intact :
    (media : Media) (g : PrivateGroup) (group_id src : String) (d : MessageData) (now : ℕ)
    → Keeps Intact (store_group_message media g group_id src d now)
unfolding store_group_message
store_group_message-Intact media g group_id src d now =
    search (session_rules, fetch_group_media-Intact, show_notification-Intact) depth 30

pub handle_group_message-Intact :
    (media : Media) (src : String) (d : MessageData) (now : ℕ)
    → Keeps Intact (handle_group_message media src d now)
unfolding handle_group_message
handle_group_message-Intact media src d now =
    search (session_rules, store_group_message-Intact) depth 20

pub kick_out-Intact :
    (group_id target id : String) (now : ℕ) → Keeps Intact (kick_out group_id target id now)
unfolding kick_out
kick_out-Intact group_id target id now = search (session_rules, throw_if-Intact) depth 20

pub get_members-Intact : (group_id : String) (now : ℕ) → Keeps Intact (get_members group_id now)
unfolding get_members
get_members-Intact group_id now = search session_rules depth 20

pub request_member_sync-Intact :
    (group_id id : String) (now : ℕ) → Keeps Intact (request_member_sync group_id id now)
unfolding request_member_sync
request_member_sync-Intact group_id id now = search session_rules depth 20

module _ (p : Platform) (me : Identity) where
  pub create_group-Intact :
      (name uuid : String) (now : ℕ) → Keeps Intact (create_group p me name uuid now)
  unfolding create_group
  create_group-Intact name uuid now = search session_rules depth 20

  pub begin_invite-Intact : (group_id target : String) → Keeps Intact (begin_invite group_id target)
  unfolding begin_invite
  begin_invite-Intact group_id target = search (session_rules, throw_if-Intact) depth 20

  pub finish_invite-Intact :
      (group_id target : String) (checked : String × PrivateGroup) (uuid : ℕ → String) (now : ℕ)
      → Keeps Intact (finish_invite p me group_id target checked uuid now)
  unfolding finish_invite
  finish_invite-Intact group_id target checked uuid now = search session_rules depth 20

  pub invite-Intact :
      (group_id target : String) (uuid : ℕ → String) (now : ℕ)
      → Keeps Intact (invite p me group_id target uuid now)
  unfolding invite
  invite-Intact group_id target uuid now =
      search (keeps_rules, begin_invite-Intact, finish_invite-Intact)

  pub begin_accept-Intact : (group_id : String) → Keeps Intact (begin_accept p group_id)
  unfolding begin_accept
  begin_accept-Intact group_id = search (session_rules, throw_if-Intact) depth 20

  pub finish_accept-Intact :
      (group_id : String) (checked : String × Member) (uuid : ℕ → String) (now : ℕ)
      → Keeps Intact (finish_accept p me group_id checked uuid now)
  unfolding finish_accept
  finish_accept-Intact group_id checked uuid now = search session_rules depth 30

  pub accept_invitation-Intact :
      (group_id : String) (uuid : ℕ → String) (now : ℕ)
      → Keeps Intact (accept_invitation p me group_id uuid now)
  unfolding accept_invitation
  accept_invitation-Intact group_id uuid now =
      search (keeps_rules, begin_accept-Intact, finish_accept-Intact)

  pub begin_quit-Intact : (group_id : String) → Keeps Intact (begin_quit group_id)
  unfolding begin_quit
  begin_quit-Intact group_id = search session_rules depth 10

  tell_owner-Intact :
      (group_id own id : String) (now : ℕ) → Keeps Intact (tell_owner p me group_id own id now)
  unfolding tell_owner
  tell_owner-Intact group_id own id now = search session_rules depth 20

  pub finish_quit-Intact :
      (group_id own id : String) (now : ℕ) → Keeps Intact (finish_quit p me group_id own id now)
  unfolding finish_quit
  finish_quit-Intact group_id own id now = search (session_rules, tell_owner-Intact) depth 20

  pub quit-Intact : (group_id id : String) (now : ℕ) → Keeps Intact (quit p me group_id id now)
  unfolding quit
  quit-Intact group_id id now = search (keeps_rules, begin_quit-Intact, finish_quit-Intact)
