-- ===== src/Store/Members.antt =====
-- private-group-member-repository.ts
pub mod Order
pub mod Listing
use Order.{order_by_permission}
use dchat_desktop.Common.{String, Bool, ◌&&◌, Option, List, string_eq, pair_eq, ◌==◌, select}
use dchat_desktop.Common.Int.{ℤ, ltb_ℤ}
use dchat_desktop.Types.Group.{Member}
use dchat_desktop.Types.Perm
use dchat_desktop.Table.{find, update, delete}
use dchat_desktop.Table
use dchat_desktop.Store.Db.{Db, member_key}

abbrev pub merge : Member → Member → Member
merge excluded m = record excluded { group_id = m.group_id; invitee = m.invitee }

unfoldable pub upsert : Member → Db → Db
upsert m db = record db { members = Table.upsert member_key merge m db.members }

abbrev pub in_group : String → Member → Bool
in_group group_id m = m.group_id == group_id

abbrev pub is_active : Member → Bool
is_active m = ltb_ℤ Perm.none m.permission

abbrev pub is_active_in : String → Member → Bool
is_active_in group_id m = in_group group_id m && is_active m

unfoldable pub find_by_group_id : String → Db → List Member
find_by_group_id group_id db = order_by_permission (select (in_group group_id) db.members)

unfoldable pub find_by_group_id_and_invitee : String → String → Db → Option Member
find_by_group_id_and_invitee group_id invitee db = find member_key (group_id, invitee) db.members

unfoldable pub active_rows : String → List Member → List Member
active_rows group_id members = order_by_permission (select (is_active_in group_id) members)

unfoldable pub find_active_members : String → Db → List Member
unfolding active_rows
find_active_members group_id db = active_rows group_id db.members

unfoldable pub update_permission : String → String → ℤ → Db → Db
update_permission group_id invitee permission db = record db {
  members =
      update member_key (group_id, invitee) (λ m. record m { permission = permission }) db.members;
}

unfoldable pub delete_by_group_id : String → Db → Db
delete_by_group_id group_id db = record db {
  members = delete (λ m. m.group_id) group_id db.members;
}
