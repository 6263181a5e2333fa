-- ===== src/Store/Subscribers.antt =====
-- topic-subscriber-repository.ts
use dchat_desktop.Common.{
  ℕ, String, Bool, Option, none, some, List, [], ◌∷◌, string_eq, pair_eq, ◌==◌, select,
}
use dchat_desktop.Types.Topic.{TopicSubscriber}
use dchat_desktop.Table.{delete, insert}
use dchat_desktop.Table
use dchat_desktop.Table.Order.{order_asc}
use dchat_desktop.Store.Db.{Db, subscriber_key}

abbrev pub row : String → ℕ → String → TopicSubscriber
row topic_id now address = record {
  topic_id = topic_id;
  contact_address = address;
  created_at = now;
}

-- ON CONFLICT DO NOTHING: the row that is there stays.
abbrev pub keep : TopicSubscriber → TopicSubscriber → TopicSubscriber
keep excluded s = s

unfoldable pub upsert : String → String → ℕ → Db → Db
upsert topic_id address now db = record db {
  subscribers = Table.upsert subscriber_key keep (row topic_id now address) db.subscribers;
}

abbrev pub in_topic : String → TopicSubscriber → Bool
in_topic topic_id s = s.topic_id == topic_id

unfoldable pub rows_of : String → List TopicSubscriber → List TopicSubscriber
rows_of topic_id rows = order_asc (λ s. s.created_at) (select (in_topic topic_id) rows)

unfoldable pub find_by_topic_id : String → Db → List TopicSubscriber
unfolding rows_of
find_by_topic_id topic_id db = rows_of topic_id db.subscribers

abbrev pub by_topic : TopicSubscriber → String
by_topic s = s.topic_id

unfoldable pub delete_by_topic_id : String → Db → Db
delete_by_topic_id topic_id db = record db { subscribers = delete by_topic topic_id db.subscribers }

unfoldable pub delete_by_topic_and_address : String → String → Db → Db
delete_by_topic_and_address topic_id address db = record db {
  subscribers = delete subscriber_key (topic_id, address) db.subscribers;
}

unfoldable pub insert_all :
    String → ℕ → List String → List TopicSubscriber → Option (List TopicSubscriber)
insert_all topic_id now [] rows = some rows
insert_all topic_id now (a ∷ more) rows = elim (insert subscriber_key (row topic_id now a) rows) [
  | none ↦ none
  | some rows' ↦ insert_all topic_id now more rows'
]

abbrev pub with_rows : Db → Option (List TopicSubscriber) → Option Db
with_rows db none = none
with_rows db (some rows) = some (record db { subscribers = rows })

-- One transaction: an address that comes twice violates the primary key, and undoes it.
unfoldable pub replace_all : String → List String → ℕ → Db → Option Db
unfolding insert_all
replace_all topic_id addresses now db =
    with_rows db (insert_all topic_id now addresses (delete by_topic topic_id db.subscribers))
