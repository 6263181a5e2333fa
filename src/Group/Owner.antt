-- ===== src/Group/Owner.antt =====
-- private-group-service.ts: the methods of those who run a group: `createGroup`, `invite` and
-- `kickOut`. `invite` is split at the `await` of its signature.
pub mod Guards
use dchat_desktop.Common.{
  ℕ, ◌+◌, String, Bool, true, false, not, Option, none, some, List, [], ◌∷◌, length, if◌then◌else◌,
}
use dchat_desktop.Common.Int.{ltb_ℤ, eq_ℤ}
use dchat_desktop.Common.Text.{◌++◌, short}
use dchat_desktop.Types.{Message, group_invitation, sent}
use dchat_desktop.Types.Group.{PrivateGroup, Member}
use dchat_desktop.Types.Perm
use dchat_desktop.Types.Wire.{Packet, Invitation, control, invitation}
use dchat_desktop.Store.Groups
use dchat_desktop.Store.Members
use dchat_desktop.Store.Messages
use dchat_desktop.Store.Sessions
use dchat_desktop.Group.Platform.{Platform, Identity, gen_signature}
use dchat_desktop.Group.Version.{gen_group_version}
use dchat_desktop.Group.Session.{
  group_session, get_or_create_group_session, notice, push_session, push_group,
}
use dchat_desktop.Group.Sync.{is_active_member, recount, sync_members_to_all}
use dchat_desktop.Exec.{
  Exec, ◌>>=◌, ◌>>◌, pure, throw, gets, modify, attempt, push, when, my_address, require,
  send_no_reply, on_message, on_group_update, Error, not_connected, group_not_found, no_permission,
  already_member, only_owner_kicks,
}

-- Seven days.
abbrev pub invitation_expiry : ℕ
invitation_expiry = 604800000

-- `if (test) throw ...`
unfoldable pub throw_if : Bool → Error → Exec (Unit {0})
throw_if test e = if test then throw e else pure tt

abbrev pub is_owner : Option Member → Bool
is_owner none = false
is_owner (some m) = eq_ℤ m.permission Perm.owner

-- `!myMember || myMember.permission < ADMIN`
abbrev pub is_below_admin : Option Member → Bool
is_below_admin none = true
is_below_admin (some m) = ltb_ℤ m.permission Perm.admin

-- `invite` up to its signature: the caller's address, and the group.
unfoldable pub begin_invite : (group_id target : String) → Exec (String × PrivateGroup)
unfolding ◌>>=◌ throw_if
begin_invite group_id target = do
  address ← my_address
  own ← require address not_connected
  found ← gets (Groups.find_by_id group_id)
  g ← require found group_not_found
  mine ← gets (Members.find_by_group_id_and_invitee group_id own)
  throw_if (is_below_admin mine) no_permission
  existing ← gets (Members.find_by_group_id_and_invitee group_id target)
  throw_if (is_active_member existing) already_member
  pure (own, g)

module _ (p : Platform) (me : Identity) where
  -- The member that the creator of a group is.
  abbrev pub owner_member : String → String → ℕ → Member
  owner_member group_id own now =
      let raw = p.member_json (record {
        expires_at = now + invitation_expiry;
        group_id = group_id;
        invitee = own;
        inviter = own;
        permission = Perm.owner;
      }) in
      let signature = gen_signature p me.private_key raw in
      record {
        group_id = group_id;
        permission = Perm.owner;
        expires_at = now + invitation_expiry;
        inviter = own;
        invitee = own;
        inviter_raw_data = raw;
        invitee_raw_data = raw;
        inviter_signature = signature;
        invitee_signature = signature;
      }

  abbrev pub new_group : String → String → String → ℕ → PrivateGroup
  new_group group_id name own now =
      let raw =
        p.group_json
          (record { delete_after_seconds = 0; group_id = group_id; name = name; kind = 0 }) in
      let signature = gen_signature p me.private_key raw in
      record {
        group_id = group_id;
        kind = 0;
        name = name;
        count = 1;
        joined = true;
        signature = signature;
        version = gen_group_version p (some 1) signature (owner_member group_id own now ∷ []);
        raw_data = raw;
        created_at = now;
        updated_at = now;
      }

  -- `uuid` comes without its hyphens.
  unfoldable pub create_group : (name uuid : String) → (now : ℕ) → Exec PrivateGroup
  unfolding ◌>>=◌
  create_group name uuid now = do
    address ← my_address
    own ← require address not_connected
    let group_id = me.public_key ++ "." ++ uuid
    let g = new_group group_id name own now
    modify (Groups.upsert g)
    modify (Members.upsert (owner_member group_id own now))
    get_or_create_group_session group_id name now
    push (on_group_update g)
    pure g

  abbrev pub invitation_for : String → String → PrivateGroup → String → ℕ → Invitation
  invitation_for group_id own g target now =
      let raw = p.member_json (record {
        expires_at = now + invitation_expiry;
        group_id = group_id;
        invitee = target;
        inviter = own;
        permission = Perm.normal;
      }) in
      record {
        group_id = group_id;
        name = g.name;
        kind = g.kind;
        version = g.version;
        item = record {
          group_id = group_id;
          permission = Perm.normal;
          expires_at = now + invitation_expiry;
          invitee = target;
          inviter = own;
          inviter_raw_data = raw;
          inviter_signature = gen_signature p me.private_key raw;
        };
      }

  abbrev pub invite_notice : String → String → PrivateGroup → String → String → ℕ → Message
  invite_notice group_id own g target id now =
      let content =
        p.note_json
          (record { group_id = group_id; name = g.name; inviter = own; invitee = target }) in
      notice id group_id own target group_invitation content sent true none now now

  unfoldable pub finish_invite :
      (group_id target : String) → String × PrivateGroup → (uuid : ℕ → String) → ℕ → Exec (Unit {0})
  unfolding ◌>>=◌
  finish_invite group_id target (own, g) uuid now = do
    send_no_reply target
        (control (uuid 0) (invitation (invitation_for group_id own g target now)) now)
    get_or_create_group_session group_id g.name now
    let m = invite_notice group_id own g target (uuid 1) now
    attempt (Messages.insert m)
    modify
        (Sessions.update_last_message (group_session group_id) ("Invited " ++ short target) now now)
    push (on_message m)
    push_session group_id

  unfoldable pub invite : (group_id target : String) → (uuid : ℕ → String) → ℕ → Exec (Unit {0})
  unfolding ◌>>=◌
  invite group_id target uuid now = do
    checked ← begin_invite group_id target
    finish_invite group_id target checked uuid now

-- `kickOut`
unfoldable pub kick_out : (group_id target id : String) → ℕ → Exec (Unit {0})
unfolding ◌>>=◌ throw_if
kick_out group_id target id now = do
  address ← my_address
  own ← require address not_connected
  mine ← gets (Members.find_by_group_id_and_invitee group_id own)
  throw_if (not (is_owner mine)) only_owner_kicks
  modify (Members.update_permission group_id target Perm.black)
  recount group_id now
  sync_members_to_all group_id id now
  push_group group_id
