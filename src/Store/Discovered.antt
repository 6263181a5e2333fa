-- ===== src/Store/Discovered.antt =====
-- discovered-group-repository.ts
use mathlib.Core.Option.{or_else}
use dchat_desktop.Common.{
  ℕ, ◌-◌, String, Bool, not, Option, none, some, List, ltb, leb, ◌==◌, string_eq, length, select,
  if◌then◌else◌,
}
use dchat_desktop.Types.Topic.{DiscoveredGroup}
use dchat_desktop.Table.{find, update}
use dchat_desktop.Table
use dchat_desktop.Table.Order.{order_desc}
use dchat_desktop.Store.Db.{Db, discovered_key}

-- SQLite's MAX of two numbers.
abbrev pub max : ℕ → ℕ → ℕ
max a b = if leb b a then a else b

-- The INSERT leaves `last_verified_at` at its default; `joined` is no column.
abbrev pub row_of : DiscoveredGroup → DiscoveredGroup
row_of g = record g { last_verified_at = none; joined = none }

abbrev pub merge : DiscoveredGroup → DiscoveredGroup → DiscoveredGroup
merge excluded g = record g {
  description = or_else excluded.description g.description;
  category = or_else excluded.category g.category;
  subscriber_count = max excluded.subscriber_count g.subscriber_count;
  reported_by = excluded.reported_by;
  last_reported_at = max excluded.last_reported_at g.last_reported_at;
  avatar_uri = or_else excluded.avatar_uri g.avatar_uri;
}

unfoldable pub upsert : DiscoveredGroup → Db → Db
upsert g db = record db { discovered = Table.upsert discovered_key merge (row_of g) db.discovered }

unfoldable pub find_all : Db → List DiscoveredGroup
find_all db = order_desc (λ g. g.subscriber_count) db.discovered

abbrev has_category : String → DiscoveredGroup → Bool
has_category category g = elim g.category [ none ↦ Bool.false | some c ↦ c == category ]

unfoldable pub find_by_category : String → Db → List DiscoveredGroup
find_by_category category db =
    order_desc (λ g. g.subscriber_count) (select (has_category category) db.discovered)

abbrev pub cutoff : ℕ → ℕ → ℕ
cutoff older_than_ms now = now - older_than_ms

abbrev pub is_stale : ℕ → DiscoveredGroup → Bool
is_stale before g = ltb g.last_reported_at before

abbrev pub is_recent : ℕ → DiscoveredGroup → Bool
is_recent before g = not (is_stale before g)

-- `result.changes`. Before the year 1970 the cutoff would be negative, and no row older than it.
unfoldable pub stale_count : ℕ → ℕ → Db → ℕ
stale_count older_than_ms now db =
    length (select (is_stale (cutoff older_than_ms now)) db.discovered)

unfoldable pub delete_stale : ℕ → ℕ → Db → Db
delete_stale older_than_ms now db = record db {
  discovered = select (is_recent (cutoff older_than_ms now)) db.discovered;
}

unfoldable pub update_subscriber_count : String → ℕ → ℕ → Db → Db
update_subscriber_count topic_name count now db = record db {
  discovered =
      update discovered_key topic_name
        (λ g. record g { subscriber_count = count; last_verified_at = some now }) db.discovered;
}

unfoldable pub find_by_topic_name : String → Db → Option DiscoveredGroup
find_by_topic_name topic_name db = find discovered_key topic_name db.discovered
