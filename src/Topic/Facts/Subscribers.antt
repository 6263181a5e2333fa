-- ===== src/Topic/Facts/Subscribers.antt =====
-- topic-service.ts: who is listed as a subscriber, and how many.
use dchat_desktop.Common.{
  ℕ, String, Bool, not, ◌&&◌, ◌||◌, List, [], ◌∷◌, ◌≡◌, refl, ◌∙◌, map, select, length, contains,
  string_eq, pair_eq, ◌==◌, arith,
}
use dchat_desktop.Types.Topic.{TopicSubscriber}
use dchat_desktop.Table.{find, find-upsert, find-delete, delete, upsert}
use dchat_desktop.Table.Order.{length-order_asc, contains-order_asc}
use dchat_desktop.Store.Db.{Db, subscriber_key, is_some}
use dchat_desktop.Store.Subscribers
use dchat_desktop.Topic.Session.{address_of, subscriber_addresses}

-- The address is a key of the table.
abbrev pub is_subscriber : String → String → List TopicSubscriber → Bool
is_subscriber name a rows = is_some (find subscriber_key (name, a) rows)

contains-select :
    (name a : String) (rows : List TopicSubscriber)
    → contains (map address_of (select (Subscribers.in_topic name) rows)) a
      ≡ is_subscriber name a rows
unfolding contains select find
contains-select name a [] = refl
contains-select name a (r ∷ rows) = ground (arith, contains-select name a rows)

pub contains-subscriber_addresses :
    (name a : String) (db : Db)
    → contains (subscriber_addresses name db) a ≡ is_subscriber name a db.subscribers
unfolding subscriber_addresses Subscribers.find_by_topic_id Subscribers.rows_of
contains-subscriber_addresses name a db =
    contains-order_asc (λ s. s.created_at) address_of a
      (select (Subscribers.in_topic name) db.subscribers)
    ∙ contains-select name a db.subscribers

pub length-rows_of :
    (name : String) (rows : List TopicSubscriber)
    → length (Subscribers.rows_of name rows) ≡ length (select (Subscribers.in_topic name) rows)
unfolding Subscribers.rows_of
length-rows_of name rows =
    length-order_asc (λ s. s.created_at) (select (Subscribers.in_topic name) rows)

module _ (name src : String) (now : ℕ) (rows : List TopicSubscriber) where
  abbrev subscribed : List TopicSubscriber
  subscribed = upsert subscriber_key Subscribers.keep (Subscribers.row name now src) rows

  pub is_subscriber-upsert :
      (j a : String)
      → is_subscriber j a subscribed ≡ ((name == j && src == a) || is_subscriber j a rows)
  is_subscriber-upsert j a = ground (
    arith,
    find-upsert subscriber_key Subscribers.keep (Subscribers.row name now src) (j, a) rows
        (λ x y. refl),
  )

  pub is_subscriber-delete :
      (j a : String)
      → is_subscriber j a (delete subscriber_key (name, src) rows)
        ≡ (not (name == j && src == a) && is_subscriber j a rows)
  is_subscriber-delete j a = ground (arith, find-delete subscriber_key (name, src) (j, a) rows)
