-- ===== src/Store/Topics.antt =====
-- topic-repository.ts
use mathlib.Core.Option.{or_else}
use dchat_desktop.Common.{ℕ, String, Bool, Option, List, string_eq, select}
use dchat_desktop.Types.Topic.{Topic}
use dchat_desktop.Table.{find, update, delete}
use dchat_desktop.Table
use dchat_desktop.Table.Order.{order_desc}
use dchat_desktop.Store.Db.{Db, topic_key}

abbrev pub merge : Topic → Topic → Topic
merge excluded t = record excluded { id = t.id; created_at = t.created_at }

unfoldable pub upsert : Topic → Db → Db
upsert t db = record db { topics = Table.upsert topic_key merge t db.topics }

unfoldable pub find_by_id : String → Db → Option Topic
find_by_id id db = find topic_key id db.topics

unfoldable pub find_all : Db → List Topic
find_all db = order_desc (λ t. t.updated_at) db.topics

unfoldable pub find_joined : Db → List Topic
find_joined db = order_desc (λ t. t.updated_at) (select (λ t. t.joined) db.topics)

-- UPDATE topic SET ... WHERE id = ?
unfoldable pub set_row : String → (Topic → Topic) → Db → Db
set_row id f db = record db { topics = update topic_key id f db.topics }

-- COALESCE keeps what is there where no new value is given.
unfoldable pub set_joined : String → Bool → Option ℕ → Option ℕ → ℕ → Db → Db
set_joined id joined subscribe_at expire_block_height now db =
    set_row id
      (λ t. record t {
        joined = joined;
        subscribe_at = or_else subscribe_at t.subscribe_at;
        expire_block_height = or_else expire_block_height t.expire_block_height;
        updated_at = now;
      })
      db

abbrev pub with_count : ℕ → ℕ → Topic → Topic
with_count count now t = record t { member_count = count; updated_at = now }

unfoldable pub set_member_count : String → ℕ → ℕ → Db → Db
set_member_count id count now db = set_row id (with_count count now) db

unfoldable pub delete_by_id : String → Db → Db
delete_by_id id db = record db { topics = delete topic_key id db.topics }
