-- ===== src/Group/Welcome.antt =====
-- private-group-service.ts: how the inviter takes in a member that accepts: `onInviteeAccept`, and
-- `onMemberSubscribe`. The handler awaits its signature checks before it reads the state, so it is
-- one action.
use dchat_desktop.Common.{
  ℕ, String, Bool, false, not, ◌&&◌, Option, none, some, List, [], ◌∷◌, select, length, ◌==◌,
  string_eq,
}
use dchat_desktop.Common.Text.{◌++◌, truthy, or_empty}
use dchat_desktop.Types.{Message, MessageData, Contact, group_subscribe, delivered}
use dchat_desktop.Types.Group.{PrivateGroup, Member}
use dchat_desktop.Types.Perm
use dchat_desktop.Types.Raw.{RawMember}
use dchat_desktop.Types.Wire.{control, member_response}
use dchat_desktop.Store.Groups
use dchat_desktop.Store.Members
use dchat_desktop.Store.Contacts
use dchat_desktop.Group.Platform.{Platform}
use dchat_desktop.Group.Version.{gen_group_version, next_commits}
use dchat_desktop.Group.Payload.{◌or_else◌, parsed, to_snake_case}
use dchat_desktop.Group.Session.{
  get_or_create_group_session, notice, announce, push_group, sender_name,
}
use dchat_desktop.Group.Sync.{active_addresses, version_of, send_option_response}
use dchat_desktop.Group.Joining.{verify_optional}
use dchat_desktop.Exec.{
  Exec, ◌>>=◌, ◌>>◌, pure, gets, modify, when, with_some, my_address, require, send_to_multiple,
  type_error, constraint,
}

abbrev pub join_notice : String → String → Option Contact → MessageData → ℕ → Message
join_notice group_id src contact d now =
    notice d.id group_id src group_id group_subscribe
      (sender_name contact src ++ " joined the group") delivered false none
      (d.timestamp or_else now) now

-- The notice that a member has joined.
unfoldable pub announce_join : String → String → MessageData → ℕ → Exec (Unit {0})
unfolding ◌>>=◌ announce
announce_join group_id src d now = do
  contact ← gets (Contacts.find_by_address src)
  announce group_id (join_notice group_id src contact d now) (sender_name contact src ++ " joined")
      now

-- The member that an accept describes.
abbrev pub accepted_member : String → String → String → RawMember → Member
accepted_member group_id inviter invitee raw = record {
  group_id = group_id;
  permission = Perm.normal;
  expires_at = raw.camel.expires_at or_else 0;
  inviter = inviter;
  invitee = invitee;
  inviter_raw_data = or_empty raw.camel.inviter_raw_data;
  invitee_raw_data = or_empty raw.camel.invitee_raw_data;
  inviter_signature = or_empty raw.camel.inviter_signature;
  invitee_signature = or_empty raw.camel.invitee_signature;
}

-- `a !== myAddress && a !== payload.invitee`
abbrev is_third : Option String → String → String → Bool
is_third none invitee a = not (a == invitee)
is_third (some own) invitee a = not (a == own) && not (a == invitee)

-- The members that were there before are told of the new one.
unfoldable pub tell_others :
    String → Member → List String → (uuid : ℕ → String) → ℕ → Exec (Unit {0})
unfolding ◌>>=◌
tell_others group_id m [] uuid now = pure tt
tell_others group_id m (d ∷ ds) uuid now = do
  group ← gets (Groups.find_by_id group_id)
  send_to_multiple (d ∷ ds)
      (control (uuid 1) (member_response group_id (version_of group) (to_snake_case m ∷ [])) now)
  send_option_response group_id (d ∷ ds) (uuid 2) now

abbrev name_or_empty : Option PrivateGroup → String
name_or_empty none = ""
name_or_empty (some g) = g.name

module _ (p : Platform) where
  -- The count and the version after a change of the members.
  unfoldable pub update_version : Option PrivateGroup → String → List Member → ℕ → Exec (Unit {0})
  unfolding ◌>>=◌ with_some
  update_version group group_id active now = with_some group λ g. do
    modify (Groups.set_count group_id (length active) now)
    modify (
        Groups.set_version group_id
          (gen_group_version p (next_commits g.version) g.signature active) now)

  -- The member is stored, and the count and the version of the group follow.
  unfoldable pub store_member : Member → ℕ → Exec (Option PrivateGroup)
  unfolding ◌>>=◌
  store_member m now = do
    modify (Members.upsert m)
    active ← gets (Members.find_active_members m.group_id)
    group ← gets (Groups.find_by_id m.group_id)
    update_version group m.group_id active now
    pure group

  -- What an accept writes and sends, once both signatures verify.
  unfoldable pub take_in : Member → String → MessageData → (uuid : ℕ → String) → ℕ → Exec (Unit {0})
  unfolding ◌>>=◌
  take_in m src d uuid now = do
    group ← store_member m now
    me ← my_address
    get_or_create_group_session m.group_id (name_or_empty group) now
    announce_join m.group_id src d now
    send_option_response m.group_id (m.invitee ∷ []) (uuid 0) now
    addresses ← gets (active_addresses m.group_id)
    tell_others m.group_id m (select (is_third me m.invitee) addresses) uuid now
    push_group m.group_id

  -- Both signatures are there, and verify.
  abbrev pub is_signed : String → String → RawMember → Bool
  is_signed inviter invitee raw =
      verify_optional p inviter raw.camel.inviter_raw_data raw.camel.inviter_signature
      && verify_optional p invitee raw.camel.invitee_raw_data raw.camel.invitee_signature

  unfoldable pub on_invitee_accept :
      String → MessageData → (uuid : ℕ → String) → ℕ → Exec (Unit {0})
  unfolding ◌>>=◌ with_some when
  on_invitee_accept src d uuid now = with_some (parsed p.parse_member d) λ raw. do
    inviter ← require raw.inviter type_error
    invitee ← require raw.invitee type_error
    when (is_signed inviter invitee raw) do
      group_id ← require raw.camel.group_id constraint
      take_in (accepted_member group_id inviter invitee raw) src d uuid now

unfoldable pub on_member_subscribe : String → MessageData → ℕ → Exec (Unit {0})
unfolding ◌>>=◌ when with_some
on_member_subscribe src d now =
    let group_id = or_empty d.group_id in
    when (truthy d.group_id) do
      group ← gets (Groups.find_by_id group_id)
      with_some group
          λ g. do get_or_create_group_session group_id g.name now; announce_join group_id src d now
