-- ===== src/Group/Leaving.antt =====
-- private-group-service.ts: `quit`, which is split at the `await` of its signature, and `onMemberQuit`,
-- which awaits its check before it reads the state and is one action.
use dchat_desktop.Common.{
  ℕ, String, false, not, Option, none, some, List, [], ◌∷◌, ◌==◌, string_eq, if◌then◌else◌,
}
use dchat_desktop.Common.Text.{◌++◌}
use dchat_desktop.Types.{Message, MessageData, Contact, group_quit, delivered}
use dchat_desktop.Types.Group.{Member}
use dchat_desktop.Types.Perm
use dchat_desktop.Types.Wire.{control, quit as quit_control}
use dchat_desktop.Store.Groups
use dchat_desktop.Store.Members
use dchat_desktop.Store.Sessions
use dchat_desktop.Store.Contacts
use dchat_desktop.Group.Platform.{
  Platform, Identity, gen_signature, verify_signature, get_pub_key_from_address,
}
use dchat_desktop.Group.Payload.{◌or_string◌, ◌or_else◌, parsed}
use dchat_desktop.Group.Session.{
  group_session, get_or_create_group_session, notice, announce, push_group, sender_name,
}
use dchat_desktop.Group.Sync.{recount}
use dchat_desktop.Group.Owner.{is_owner}
use dchat_desktop.Exec.{
  Exec, ◌>>=◌, ◌>>◌, pure, gets, modify, push, when, with_some, my_address, require, send_no_reply,
  on_session_delete, not_connected, group_not_found,
}

-- `activeMembers.find((m) => m.permission === OWNER)`
abbrev pub find_owner : List Member → Option Member
find_owner [] = none
find_owner (m ∷ ms) = if is_owner (some m) then some m else find_owner ms

abbrev or_member : Option Member → (Member → String) → String → String
or_member none field default = default
or_member (some m) field default = field m

-- `quit` up to its signature: the own address.
unfoldable pub begin_quit : String → Exec String
unfolding ◌>>=◌
begin_quit group_id = do
  address ← my_address
  own ← require address not_connected
  found ← gets (Groups.find_by_id group_id)
  _ ← require found group_not_found
  pure own

module _ (p : Platform) (me : Identity) where
  abbrev pub quit_member : String → String → Option Member → Member
  quit_member group_id own mine =
      let raw = p.member_json (record {
        expires_at = 0;
        group_id = group_id;
        invitee = own;
        inviter = own;
        permission = Perm.quit;
      }) in
      record {
        group_id = group_id;
        permission = Perm.quit;
        expires_at = 0;
        inviter = or_member mine (λ m. m.inviter) own;
        invitee = own;
        inviter_raw_data = or_member mine (λ m. m.inviter_raw_data) "";
        invitee_raw_data = raw;
        inviter_signature = or_member mine (λ m. m.inviter_signature) "";
        invitee_signature = gen_signature p me.private_key raw;
      }

  unfoldable pub tell_owner : String → String → String → ℕ → Exec (Unit {0})
  unfolding ◌>>=◌ with_some when
  tell_owner group_id own id now = do
    active ← gets (Members.find_active_members group_id)
    with_some (find_owner active) λ owner. when (not (owner.invitee == own)) do
      mine ← gets (Members.find_by_group_id_and_invitee group_id own)
      send_no_reply owner.invitee (control id (quit_control (quit_member group_id own mine)) now)

  unfoldable pub finish_quit : String → String → String → ℕ → Exec (Unit {0})
  unfolding ◌>>=◌
  finish_quit group_id own id now = do
    tell_owner group_id own id now
    modify (Members.update_permission group_id own Perm.quit)
    modify (Groups.set_joined group_id false now)
    modify (Sessions.delete_by_id (group_session group_id))
    push (on_session_delete (group_session group_id))
    push_group group_id

  unfoldable pub quit : String → String → ℕ → Exec (Unit {0})
  unfolding ◌>>=◌
  quit group_id id now = do own ← begin_quit group_id; finish_quit group_id own id now

abbrev pub quit_notice : String → String → Option Contact → MessageData → ℕ → Message
quit_notice group_id src contact d now =
    notice d.id group_id src group_id group_quit (sender_name contact src ++ " left the group")
      delivered false none (d.timestamp or_else now) now

-- What a verified quit writes.
unfoldable pub remove_member : (group_id invitee src : String) → MessageData → ℕ → Exec (Unit {0})
unfolding ◌>>=◌ with_some
remove_member group_id invitee src d now = do
  modify (Members.update_permission group_id invitee Perm.quit)
  recount group_id now
  group ← gets (Groups.find_by_id group_id)
  with_some group λ g. get_or_create_group_session group_id g.name now
  contact ← gets (Contacts.find_by_address src)
  announce group_id (quit_notice group_id src contact d now) (sender_name contact src ++ " left")
      now
  push_group group_id

unfoldable pub on_member_quit : Platform → String → MessageData → ℕ → Exec (Unit {0})
unfolding ◌>>=◌ with_some when
on_member_quit p src d now = with_some (parsed p.parse_member d) λ raw.
    let invitee = raw.invitee or_string src in
    let raw_data = raw.camel.invitee_raw_data or_string raw.raw_data or_string "" in
    let signature = raw.camel.invitee_signature or_string raw.signature or_string "" in
    when (verify_signature p (get_pub_key_from_address invitee) raw_data signature)
      (remove_member (raw.camel.group_id or_string "") invitee src d now)
