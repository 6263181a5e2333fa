-- ===== src/Topic/Facts/Control.antt =====
-- topic-service.ts: whom the subscribe and unsubscribe messages add and remove.
use dchat_desktop.Common.{
  ℕ, String, Bool, true, not, ◌&&◌, ◌||◌, Option, none, some, List, ◌≡◌, refl, sym, ◌∙◌, ap,
  contains, string_eq, pair_eq, ◌==◌, arith,
}
use dchat_desktop.Common.Text.{truthy}
use dchat_desktop.Types.{MessageData, ContentType, topic_subscribe, topic_unsubscribe}
use dchat_desktop.Types.Topic.{Topic, TopicSubscriber}
use dchat_desktop.Table.{delete, upsert}
use dchat_desktop.Store.Db.{subscriber_key}
use dchat_desktop.Store.Topics
use dchat_desktop.Store.Subscribers
use dchat_desktop.Topic.Session.{subscriber_addresses}
use dchat_desktop.Topic.Joining.{show_topic}
use dchat_desktop.Topic.Messages.{change_subscribers, handle_topic_control}
use dchat_desktop.Topic.Facts.Subscribers.{
  is_subscriber, is_subscriber-upsert, is_subscriber-delete, contains-subscriber_addresses,
}
use dchat_desktop.Exec.{World, ok, next, with_some, when}

-- Whether an address is listed after a message from it, or from another one.
abbrev pub changed : Option ContentType → (same old : Bool) → Bool
changed (some topic_subscribe) same old = same || old
changed (some topic_unsubscribe) same old = not same && old
changed _ same old = old

abbrev changed_rows :
    Option ContentType → (name src : String) → ℕ → List TopicSubscriber → List TopicSubscriber
changed_rows (some topic_subscribe) name src now rows =
    upsert subscriber_key Subscribers.keep (Subscribers.row name now src) rows
changed_rows (some topic_unsubscribe) name src now rows = delete subscriber_key (name, src) rows
changed_rows _ name src now rows = rows

change_subscribers-rows :
    (t : Option ContentType) (name src : String) (now : ℕ) (w : World)
    → ((change_subscribers t name src now w).0 ≡ ok tt)
      × ((change_subscribers t name src now w).1.db.subscribers
          ≡ changed_rows t name src now w.db.subscribers)
unfolding change_subscribers Subscribers.upsert Subscribers.delete_by_topic_and_address
    Topics.set_member_count Topics.set_row
change_subscribers-rows (some topic_subscribe) name src now w = (refl, refl)
change_subscribers-rows (some topic_unsubscribe) name src now w = (refl, refl)
change_subscribers-rows t name src now w = (refl, refl)

is_subscriber-changed_rows :
    (t : Option ContentType) (name src : String) (now : ℕ) (rows : List TopicSubscriber)
    (j a : String)
    → is_subscriber j a (changed_rows t name src now rows)
      ≡ changed t (name == j && src == a) (is_subscriber j a rows)
is_subscriber-changed_rows (some topic_subscribe) name src now rows j a =
    is_subscriber-upsert name src now rows j a
is_subscriber-changed_rows (some topic_unsubscribe) name src now rows j a =
    is_subscriber-delete name src now rows j a
is_subscriber-changed_rows t name src now rows j a = refl

show_topic-db :
    (name : String) (w : World)
    → ((show_topic name w).0 ≡ ok tt) × ((show_topic name w).1.db ≡ w.db)
unfolding show_topic
show_topic-db name w = ground arith

module _ (src name : String) (d : MessageData) (now : ℕ) (w : World) where
  -- What `handleIncomingTopicControl` does to the lists of all topics, where the topic is known and
  -- where it is not.
  handle_topic_control-rows :
      (o : Option Topic)
      → d.topic ≡ some name
      → truthy d.topic ≡ true
      → Topics.find_by_id name w.db ≡ o
      → ((handle_topic_control src d now w).0 ≡ ok tt)
        × ((handle_topic_control src d now w).1.db.subscribers ≡ elim o [
          | none ↦ w.db.subscribers
          | some t ↦ changed_rows d.content_type name src now w.db.subscribers
        ])
  unfolding handle_topic_control when with_some
  handle_topic_control-rows none e v h = rw (v, e, h) (refl, refl)
  handle_topic_control-rows (some t) e v h =
      let c = change_subscribers-rows d.content_type name src now w in
      let s = show_topic-db name (change_subscribers d.content_type name src now w).1 in
      rw (v, e, h, c.0, next) (s.0, ap (λ db. db.subscribers) s.1 ∙ c.1)

  -- A subscribe message for a topic that is known adds its sender to the subscribers of that topic, and
  -- an unsubscribe message removes the sender; no other address and no other topic is touched, any
  -- other content type changes nothing, and the handler never throws.
  pub handle_topic_control_lem :
      (t : Topic) (j a : String)
      → d.topic ≡ some name
      → truthy d.topic ≡ true
      → Topics.find_by_id name w.db ≡ some t
      → ((handle_topic_control src d now w).0 ≡ ok tt)
        × (contains (subscriber_addresses j (handle_topic_control src d now w).1.db) a
            ≡ changed d.content_type
                (name == j && src == a)
                (contains (subscriber_addresses j w.db) a))
  handle_topic_control_lem t j a e v h =
      let c = handle_topic_control-rows (some t) e v h in
      (
        c.0,
        contains-subscriber_addresses j a (handle_topic_control src d now w).1.db
            ∙ ap (is_subscriber j a) c.1
            ∙ is_subscriber-changed_rows d.content_type name src now w.db.subscribers j a
            ∙ ap (changed d.content_type (name == j && src == a))
                (sym (contains-subscriber_addresses j a w.db)),
      )

  -- A message about a topic that this client does not know changes nothing.
  pub handle_topic_control-unknown :
      d.topic ≡ some name
      → truthy d.topic ≡ true
      → Topics.find_by_id name w.db ≡ none
      → handle_topic_control src d now w ≡ (ok tt, w)
  unfolding handle_topic_control when with_some
  handle_topic_control-unknown e v h = rw (v, e, h) refl
