-- ===== src/Group/Facts/Syncing.antt =====
-- private-group-service.ts: the members of one client reach another: `syncMembersToAll` or
-- `onMemberRequest` on the one side, `onMemberResponse` on the other.
use dchat_desktop.Common.{ℕ, String, some, All, map, ◌≡◌, subst, pair_eq, string_eq}
use dchat_desktop.Common.Int.{ℤ}
use dchat_desktop.Table.{find-key}
use dchat_desktop.Types.{MessageData}
use dchat_desktop.Types.Group.{PrivateGroup, Member}
use dchat_desktop.Types.Raw.{RawMembers}
use dchat_desktop.Store.Db.{Db, IsIntact, member_key}
use dchat_desktop.Store.Groups
use dchat_desktop.Store.Members
use dchat_desktop.Store.Members.Listing.{find_by_group_id-IsKeyed, find-find_by_group_id}
use dchat_desktop.Group.Platform.{Platform}
use dchat_desktop.Group.Payload.{parsed, to_snake_case, ◌or_string◌}
use dchat_desktop.Group.Session.{push_group}
use dchat_desktop.Group.Sync.{entries, merge_member, on_member_response, recount}
use dchat_desktop.Group.Facts.{About, push_group-About}
use dchat_desktop.Group.Facts.Lists.{
  Has, IsNamed, permission_of, merge_members-Has, All-lookup, recount-Has,
  on_member_response-merges,
}
use dchat_desktop.Exec.{World, ◌>>◌, for_each, Keeps, keeps_rules, holds_after}

module _ (p : Platform) (d : MessageData) (now : ℕ) (raw : RawMembers) (group_id : String) where
  rest-Has :
      (k : String × String) (v : ℤ)
      → Keeps (About (Has k v)) (recount group_id now >> push_group group_id)
  rest-Has k v = search (keeps_rules, recount-Has, push_group-About) depth 10

  -- A client that knows the group and takes over the member list of another then has each member of
  -- that list with the permission that the other has for it: a new member, a promotion, a quit and a
  -- removal all arrive, whatever the client knew before. The other database is intact and has an
  -- address for each member, and the group has an id.
  pub on_member_response-agrees :
      (other : Db) (w : World) (g : PrivateGroup) (who : String) (m : Member)
      → IsIntact other
      → All IsNamed (Members.find_by_group_id group_id other)
      → parsed p.parse_members d ≡ some raw
      → raw.group_id or_string "" ≡ group_id
      → entries raw ≡ map to_snake_case (Members.find_by_group_id group_id other)
      → Groups.find_by_id group_id w.db ≡ some g
      → Members.find_by_group_id_and_invitee group_id who other ≡ some m
      → permission_of
          (Members.find_by_group_id_and_invitee group_id who (on_member_response p d now w).1.db)
        ≡ some m.permission
  unfolding Members.find_by_group_id_and_invitee
  on_member_response-agrees other w g who m v named parse group list found has =
      let ms = Members.find_by_group_id group_id other in
      let merged =
        merge_members-Has ms w (find_by_group_id-IsKeyed group_id other v.members) named in
      let same = find-key member_key (group_id, who) other.members m has in
      let listed =
        All-lookup
          (λ x.
            About (Has (member_key x) x.permission)
              (for_each (map to_snake_case ms) merge_member w).1)
          (group_id, who) m ms merged (find-find_by_group_id group_id other v.members who m has) in
      rw (on_member_response-merges p d now raw group_id ms w g parse group list found)
        (holds_after {Q = About (Has (group_id, who) m.permission)}
          (for_each (map to_snake_case ms) merge_member)
          (λ _. recount group_id now >> push_group group_id) w
          (subst
            (λ k. About (Has k m.permission) (for_each (map to_snake_case ms) merge_member w).1)
            same listed)
          (λ _. rest-Has (group_id, who) m.permission)).tables
