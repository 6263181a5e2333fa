-- ===== src/Group/Joining.antt =====
-- private-group-service.ts: how an invitee joins: `onInvitationReceived` and
-- `acceptInvitation`. The handler reads nothing but the parsed content and the own address before it
-- awaits a signature check, so it is one action; `acceptInvitation` reads the invitation before its
-- checks, and is split there.
pub mod Handshake
pub mod Sending
pub mod EndToEnd
use dchat_desktop.Common.{
  ℕ, ◌+◌, String, Bool, true, false, not, ◌&&◌, Option, none, some, List, select, length, ◌==◌,
  string_eq, if◌then◌else◌,
}
use dchat_desktop.Common.Text.{◌++◌, truthy, or_empty}
use dchat_desktop.Types.{Message, MessageData, group_invitation, group_subscribe, sent, delivered}
use dchat_desktop.Types.Group.{PrivateGroup, Member}
use dchat_desktop.Types.Perm
use dchat_desktop.Types.Raw.{RawMember}
use dchat_desktop.Types.Wire.{control, accept, member_response}
use dchat_desktop.Store.Db.{is_some}
use dchat_desktop.Store.Groups
use dchat_desktop.Store.Members
use dchat_desktop.Store.Messages
use dchat_desktop.Store.Sessions
use dchat_desktop.Store.Contacts
use dchat_desktop.Group.Platform.{
  Platform, Identity, gen_signature, verify_signature, get_pub_key_from_address,
}
use dchat_desktop.Group.Version.{gen_group_version, next_commits}
use dchat_desktop.Group.Payload.{
  ◌or_string◌, ◌or_else◌, parsed, Invited, read_invitation, to_snake_case,
}
use dchat_desktop.Group.Session.{
  group_session, get_or_create_group_session, notice, announce, push_session, push_group,
  sender_name,
}
use dchat_desktop.Group.Sync.{active_addresses, version_of, send_option_response, request_members}
use dchat_desktop.Group.Owner.{throw_if}
use dchat_desktop.Exec.{
  Exec, ◌>>=◌, ◌>>◌, pure, throw, gets, modify, attempt, push, when, with_some, my_address, require,
  send_no_reply, send_to_multiple, on_message, on_group_update, not_connected, no_invitation,
  invalid_signature, type_error, constraint,
}

abbrev pub invited_group : Invited → ℕ → PrivateGroup
invited_group i now = record {
  group_id = i.group_id;
  kind = i.kind;
  name = i.name;
  count = 0;
  joined = false;
  signature = "";
  version = i.version;
  raw_data = "";
  created_at = now;
  updated_at = now;
}

-- The member that has been invited and has not accepted yet.
abbrev pub invited_member : Invited → Member
invited_member i = record {
  group_id = i.group_id;
  permission = Perm.none;
  expires_at = i.expires_at;
  inviter = i.inviter;
  invitee = i.invitee;
  inviter_raw_data = i.inviter_raw_data;
  invitee_raw_data = "";
  inviter_signature = i.inviter_signature;
  invitee_signature = "";
}

abbrev pub invitation_message : Invited → String → String → MessageData → ℕ → Message
invitation_message i src own d now =
    notice d.id i.group_id src own group_invitation (or_empty d.content) delivered false none
      (d.timestamp or_else now) now

-- The session, the group if it is not known, and the own member after the message is stored.
unfoldable pub show_invitation : Invited → Message → ℕ → Exec (Unit {0})
unfolding ◌>>=◌ when push_session
show_invitation i m now = do
  modify (
      Sessions.update_last_message (group_session i.group_id) "Invited you to join" m.created_at
        now)
  modify (Sessions.increment_unread (group_session i.group_id) now)
  push (on_message m)
  push_session i.group_id
  existing ← gets (Groups.find_by_id i.group_id)
  when (not (is_some existing))
      (modify (Groups.upsert (invited_group i now)) >> push (on_group_update (invited_group i now)))
  modify (Members.upsert (invited_member i))

-- What a verified invitation writes, unless its message is known.
unfoldable pub store_invitation : Invited → String → String → MessageData → ℕ → Exec (Unit {0})
unfolding ◌>>=◌ when show_invitation
store_invitation i src own d now = do
  get_or_create_group_session i.group_id i.name now
  known ← gets (Messages.find_by_id d.id)
  when (not (is_some known)) do
    let m = invitation_message i src own d now
    attempt (Messages.insert m)
    show_invitation i m now

module _ (p : Platform) where
  -- A signature over missing data does not verify: the check catches what it throws.
  abbrev pub verify_optional : String → Option String → Option String → Bool
  verify_optional address (some raw) (some signature) =
      verify_signature p (get_pub_key_from_address address) raw signature
  verify_optional address none signature = false
  verify_optional address (some raw) none = false

  unfoldable pub on_invitation_received : String → MessageData → ℕ → Exec (Unit {0})
  unfolding ◌>>=◌ when with_some
  on_invitation_received src d now = with_some (parsed p.parse_invitation d) λ raw.
      let i = read_invitation src raw in
      when (truthy (some i.group_id)) do
        me ← my_address
        with_some me λ own.
            when
              (i.invitee == own
                && verify_signature p (get_pub_key_from_address i.inviter) i.inviter_raw_data
                    i.inviter_signature)
              (store_invitation i src own d now)

  -- `acceptInvitation` up to its checks: the own address, and the invitation.
  unfoldable pub begin_accept : String → Exec (String × Member)
  unfolding ◌>>=◌ throw_if
  begin_accept group_id = do
    address ← my_address
    own ← require address not_connected
    found ← gets (Members.find_by_group_id_and_invitee group_id own)
    mine ← require found no_invitation
    throw_if
        (not (
          verify_signature p (get_pub_key_from_address mine.inviter) mine.inviter_raw_data
            mine.inviter_signature))
        invalid_signature
    pure (own, mine)

  module _ (me : Identity) where
    -- The invitation, accepted: what is stored, and sent to the inviter but for the row's own keys.
    abbrev pub accepted : String → String → Member → Member
    accepted group_id own mine =
        let raw = p.member_json (record {
          expires_at = mine.expires_at;
          group_id = group_id;
          invitee = own;
          inviter = mine.inviter;
          permission = Perm.normal;
        }) in
        record mine {
          permission = Perm.normal;
          invitee_raw_data = raw;
          invitee_signature = gen_signature p me.private_key raw;
        }

    unfoldable pub finish_accept :
        String → String × Member → (uuid : ℕ → String) → ℕ → Exec (Unit {0})
    unfolding ◌>>=◌
    finish_accept group_id (own, mine) uuid now = do
      let joined = accepted group_id own mine
      modify (Members.upsert joined)
      modify (Groups.set_joined group_id true now)
      send_no_reply mine.inviter
          (control (uuid 0) (accept (record joined { group_id = group_id; invitee = own })) now)
      let m =
          notice (uuid 1) group_id own group_id group_subscribe "Joined the group" sent true none
            now now
      attempt (Messages.insert m)
      modify (Sessions.update_last_message (group_session group_id) "Joined the group" now now)
      push (on_message m)
      push_group group_id
      push_session group_id
      request_members mine.inviter group_id (uuid 2) now

    unfoldable pub accept_invitation : String → (uuid : ℕ → String) → ℕ → Exec (Unit {0})
    unfolding ◌>>=◌
    accept_invitation group_id uuid now = do
      checked ← begin_accept group_id
      finish_accept group_id checked uuid now
