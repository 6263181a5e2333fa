-- ===== src/Store/Groups.antt =====
-- private-group-repository.ts
use dchat_desktop.Common.{ℕ, String, Bool, Option, List, string_eq, select}
use dchat_desktop.Types.Group.{PrivateGroup}
use dchat_desktop.Table.{find, update, delete}
use dchat_desktop.Table
use dchat_desktop.Table.Order.{order_desc}
use dchat_desktop.Store.Db.{Db, group_key}

abbrev pub merge : PrivateGroup → PrivateGroup → PrivateGroup
merge excluded g = record excluded { group_id = g.group_id; created_at = g.created_at }

unfoldable pub upsert : PrivateGroup → Db → Db
upsert g db = record db { groups = Table.upsert group_key merge g db.groups }

unfoldable pub find_by_id : String → Db → Option PrivateGroup
find_by_id id db = find group_key id db.groups

unfoldable pub find_all : Db → List PrivateGroup
find_all db = order_desc (λ g. g.updated_at) db.groups

unfoldable pub find_joined : Db → List PrivateGroup
find_joined db = order_desc (λ g. g.updated_at) (select (λ g. g.joined) db.groups)

-- UPDATE private_group SET ... WHERE group_id = ?
unfoldable pub set_row : String → (PrivateGroup → PrivateGroup) → Db → Db
set_row id f db = record db { groups = update group_key id f db.groups }

unfoldable pub set_joined : String → Bool → ℕ → Db → Db
set_joined id joined now db = set_row id (λ g. record g { joined = joined; updated_at = now }) db

unfoldable pub set_count : String → ℕ → ℕ → Db → Db
set_count id count now db = set_row id (λ g. record g { count = count; updated_at = now }) db

unfoldable pub set_version : String → String → ℕ → Db → Db
set_version id version now db =
    set_row id (λ g. record g { version = version; updated_at = now }) db

unfoldable pub set_signature : String → String → ℕ → Db → Db
set_signature id signature now db =
    set_row id (λ g. record g { signature = signature; updated_at = now }) db

unfoldable pub delete_by_id : String → Db → Db
delete_by_id id db = record db { groups = delete group_key id db.groups }
