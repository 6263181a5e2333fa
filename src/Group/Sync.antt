-- ===== src/Group/Sync.antt =====
-- private-group-service.ts: members and options of a group, sent and taken over between its clients.
use dchat_desktop.Common.{
  ℕ, String, Bool, true, false, not, ◌&&◌, Option, none, some, List, [], ◌∷◌, map, select, length,
  ◌==◌, string_eq, nat_eq, if◌then◌else◌,
}
use dchat_desktop.Common.Int.{ltb_ℤ, eq_ℤ}
use dchat_desktop.Common.Text.{truthy, or_empty}
use dchat_desktop.Types.{MessageData}
use dchat_desktop.Types.Group.{PrivateGroup, Member}
use dchat_desktop.Types.Perm
use dchat_desktop.Types.Raw.{RawMember, RawMembers, RawOptions}
use dchat_desktop.Types.Wire.{Packet, control, member_request, member_response, option_response}
use dchat_desktop.Store.Groups
use dchat_desktop.Store.Members
use dchat_desktop.Store.Db.{Db}
use dchat_desktop.Group.Platform.{Platform}
use dchat_desktop.Group.Payload.{◌or_string◌, ◌or_else◌, parsed, normalise, to_snake_case}
use dchat_desktop.Group.Session.{push_group}
use dchat_desktop.Exec.{
  Exec, ◌>>=◌, ◌>>◌, pure, gets, modify, when, with_some, for_each, my_address, require,
  send_no_reply, send_to_multiple, not_connected, not_a_member,
}

-- `getActiveMemberAddresses`, and its `filter((a) => a !== myAddress)`
unfoldable pub active_addresses : String → Db → List String
active_addresses group_id db = map (λ m. m.invitee) (Members.find_active_members group_id db)

abbrev pub is_other : String → String → Bool
is_other own address = not (address == own)

abbrev pub version_of : Option PrivateGroup → String
version_of none = ""
version_of (some g) = g.version

-- `member && member.permission > NONE`
abbrev pub is_active_member : Option Member → Bool
is_active_member none = false
is_active_member (some m) = ltb_ℤ Perm.none m.permission

-- The count of a group follows its active members.
unfoldable pub recount : String → ℕ → Exec (Unit {0})
unfolding ◌>>=◌
recount group_id now = do
  active ← gets (Members.find_active_members group_id)
  modify (Groups.set_count group_id (length active) now)

abbrev pub sync_to : List String → String → String → ℕ → Exec (Unit {0})
sync_to [] group_id id now = pure tt
sync_to (d ∷ ds) group_id id now = do
  all ← gets (Members.find_by_group_id group_id)
  group ← gets (Groups.find_by_id group_id)
  send_to_multiple (d ∷ ds)
      (control id (member_response group_id (version_of group) (map to_snake_case all)) now)

-- `syncMembersToAll`
unfoldable pub sync_members_to_all : String → String → ℕ → Exec (Unit {0})
unfolding ◌>>=◌ with_some
sync_members_to_all group_id id now = do
  me ← my_address
  with_some me λ own. do
    active ← gets (active_addresses group_id)
    sync_to (select (is_other own) active) group_id id now

abbrev options_packet : String → PrivateGroup → String → ℕ → Packet
options_packet group_id g id now =
    control id
      (option_response (record {
        group_id = group_id;
        raw_data = g.raw_data;
        version = g.version;
        count = g.count;
        signature = g.signature;
      }))
      now

unfoldable pub send_options : List String → Packet → Exec (Unit {0})
unfolding send_no_reply send_to_multiple
send_options (d ∷ []) packet = send_no_reply d packet
send_options ds packet = send_to_multiple ds packet

-- `sendOptionResponse`
unfoldable pub send_option_response : String → List String → String → ℕ → Exec (Unit {0})
unfolding ◌>>=◌ with_some send_options
send_option_response group_id [] id now = pure tt
send_option_response group_id (d ∷ ds) id now = do
  group ← gets (Groups.find_by_id group_id)
  with_some group λ g. send_options (d ∷ ds) (options_packet group_id g id now)

-- One entry of a member list.
abbrev pub has_changed : Option Member → Member → Bool
has_changed none m = true
has_changed (some old) m = not (eq_ℤ m.permission old.permission)

unfoldable pub merge_member : RawMember → Exec (Unit {0})
unfolding ◌>>=◌ when
merge_member raw =
    let m = normalise raw in
    when (truthy (some m.invitee) && truthy (some m.group_id)) do
      existing ← gets (Members.find_by_group_id_and_invitee m.group_id m.invitee)
      when (has_changed existing m) (modify (Members.upsert m))

abbrev pub entries : RawMembers → List RawMember
entries raw = raw.members_data or_else raw.members or_else []

unfoldable pub set_options : RawOptions → String → ℕ → Exec (Unit {0})
unfolding ◌>>=◌ when with_some
set_options o group_id now = do
  when (truthy o.version) (modify (Groups.set_version group_id (or_empty o.version) now))
  with_some o.count λ count. modify (Groups.set_count group_id count now)
  when (truthy o.signature) (modify (Groups.set_signature group_id (or_empty o.signature) now))

module _ (p : Platform) where
  -- A request is answered only to an active member.
  unfoldable pub if_active : String → MessageData → (String → Exec (Unit {0})) → Exec (Unit {0})
  unfolding ◌>>=◌ when
  if_active src d answer = with_some (parsed p.parse_options d) λ o.
      let group_id = o.group_id or_string "" in
      when (truthy (some group_id)) do
        member ← gets (Members.find_by_group_id_and_invitee group_id src)
        when (is_active_member member) (answer group_id)

  unfoldable pub on_member_request : String → MessageData → String → ℕ → Exec (Unit {0})
  unfolding ◌>>=◌ if_active
  on_member_request src d id now = if_active src d λ group_id. do
    all ← gets (Members.find_by_group_id group_id)
    group ← gets (Groups.find_by_id group_id)
    send_no_reply src
        (control id (member_response group_id (version_of group) (map to_snake_case all)) now)

  unfoldable pub on_option_request : String → MessageData → String → ℕ → Exec (Unit {0})
  unfolding if_active
  on_option_request src d id now =
      if_active src d (λ group_id. send_option_response group_id (src ∷ []) id now)

  unfoldable pub on_member_response : MessageData → ℕ → Exec (Unit {0})
  unfolding ◌>>=◌ with_some for_each
  on_member_response d now = with_some (parsed p.parse_members d) λ raw.
      let group_id = raw.group_id or_string "" in
      do
        group ← gets (Groups.find_by_id group_id)
        with_some group
            λ g. do for_each (entries raw) merge_member; recount group_id now; push_group group_id

  unfoldable pub on_option_response : MessageData → ℕ → Exec (Unit {0})
  unfolding ◌>>=◌ when with_some set_options
  on_option_response d now = with_some (parsed p.parse_options d) λ o.
      let group_id = o.group_id or_string "" in
      when (truthy (some group_id)) do
        group ← gets (Groups.find_by_id group_id)
        with_some group λ g. do set_options o group_id now; push_group group_id

-- `listGroups` and `getGroup`
unfoldable pub list_groups : Exec (List PrivateGroup)
list_groups = gets Groups.find_all

unfoldable pub get_group : String → Exec (Option PrivateGroup)
get_group group_id = gets (Groups.find_by_id group_id)

abbrev has_drifted : Option PrivateGroup → ℕ → Bool
has_drifted none count = false
has_drifted (some g) count = not (nat_eq g.count count)

-- `getMembers`: a count that drifted is set right.
unfoldable pub get_members : String → ℕ → Exec (List Member)
unfolding ◌>>=◌ when
get_members group_id now = do
  members ← gets (Members.find_by_group_id group_id)
  group ← gets (Groups.find_by_id group_id)
  let count = length (select Members.is_active members)
  when (has_drifted group count)
      (modify (Groups.set_count group_id count now) >> push_group group_id)
  pure members

abbrev active : Option Member → Option Member
active none = none
active (some m) = if ltb_ℤ Perm.none m.permission then some m else none

-- The member request that `acceptInvitation` and `requestMemberSync` send.
unfoldable pub request_members : (to group_id id : String) → ℕ → Exec (Unit {0})
unfolding ◌>>=◌
request_members to group_id id now = do
  group ← gets (Groups.find_by_id group_id)
  send_no_reply to (control id (member_request group_id (version_of group)) now)

-- `requestMemberSync`
unfoldable pub request_member_sync : String → String → ℕ → Exec (Unit {0})
unfolding ◌>>=◌ request_members
request_member_sync group_id id now = do
  me ← my_address
  own ← require me not_connected
  found ← gets (Members.find_by_group_id_and_invitee group_id own)
  member ← require (active found) not_a_member
  if eq_ℤ member.permission Perm.owner
      then sync_members_to_all group_id id now
      else request_members member.inviter group_id id now
