-- ===== src/Tests/Topics.antt =====
-- The theorems on topics and discovery at concrete inputs: alice has joined the topic t, and bob too.
use dchat_desktop.Common.{
  not, ◌||◌, ◌==◌, Bool, ◌⊎◌, ℕ, ◌≤◌, ◌*◌, String, true, false, none, some, [], ◌∷◌, ◌≡◌, refl,
  contains, length, string_eq, pair_eq, arith, select,
}
use dchat_desktop.Types.{Message, MessageData, topic_subscribe}
use dchat_desktop.Types.Topic.{Topic, TopicSubscriber, DiscoveredGroup}
use dchat_desktop.Table.{find, update, upsert, insert, IsKeyed}
use dchat_desktop.Table.Order.{order_asc}
use dchat_desktop.Store.Topics
use dchat_desktop.Store.Subscribers
use dchat_desktop.Store.Messages
use dchat_desktop.Chat.Incoming.Kinds
use dchat_desktop.Store.Sessions
use dchat_desktop.Store.Contacts
use dchat_desktop.Store.Discovered
use dchat_desktop.Store.Db.{IsIntact}
use dchat_desktop.Topic.Facts.Stored.{handle_topic_message_idempotent}
use dchat_desktop.Discovery.Facts.Cleanup.{find-cleanup_stale}
use dchat_desktop.Group.Messages.{Media}
use dchat_desktop.Topic.Session.{
  get_or_create_topic_session, push_topic_session, topic_session, subscriber_addresses,
}
use dchat_desktop.Topic.Joining.{
  Network, is_topic_name, create_and_join, leave, show_topic, get_subscribers, resync,
}
use dchat_desktop.Topic.Messages.{
  store_topic_message, show_topic_message, fetch_topic_media, topic_label, handle_topic_control,
  handle_topic_message, change_subscribers, recount_topic,
}
use dchat_desktop.Topic.Events.{run_all, run, control_arrives, lists}
use dchat_desktop.Topic.Facts.Sequences.{run_all-counts}
use dchat_desktop.Topic.Facts.Leaving.{Left, leave-Left}
use dchat_desktop.Topic.Facts.Joined.{Joined, create_and_join-Joined}
use dchat_desktop.Topic.Facts.Control.{handle_topic_control_lem}
use dchat_desktop.Topic.Facts.Returning.{leave-comes_back}
use dchat_desktop.Discovery.Timers.{
  no_timers, start_timers, stop_timers, run_timers, step, connects, fires,
}
use dchat_desktop.Discovery.Timers.Stopped.{stop_timers-silences}
use dchat_desktop.Discovery.Cache.{Files, cache_avatar, safe_name, safe_ext}
use dchat_desktop.Discovery.Announcing.{cleanup_stale}
use dchat_desktop.Discovery.Announcing.{announced_groups, announced_key, of_topic, of_discovered}
use dchat_desktop.Discovery.Receiving.{RawGroup, announced_group, handle_announcement}
use dchat_desktop.Discovery.Routed.{Parsers}
use dchat_desktop.Discovery.Facts.Broadcast.{announced_groups_lem}
use dchat_desktop.Discovery.Facts.Merging.{count_of, handle_announcement_comm}
use dchat_desktop.Discovery.Facts.FileNames.{has_code, cache_avatar-safe}
use dchat_desktop.Exec.{World, ok}
use dchat_desktop.Tests.Fixtures.{world-IsIntact, world, stored, hello}

abbrev club : ℕ → ℕ → Topic
club count at = record {
  id = "t";
  joined = true;
  subscribe_at = some 5;
  expire_block_height = none;
  member_count = count;
  created_at = 5;
  updated_at = at;
}

abbrev row : String → TopicSubscriber
row address = record { topic_id = "t"; contact_address = address; created_at = 5 }

abbrev at_topic : World
at_topic = record (stored [] []) {
  db = record (stored [] []).db {
    topics = club 2 5 ∷ [];
    subscribers = row "alice" ∷ row "bob" ∷ [];
  };
}

abbrev media : Media
media = record { save_inline = none; has_images = false; has_files = false; notification = none }

abbrev net : Network
net = record {
  letter_or_number = λ c. true;
  sha1 = λ s. s;
  subscribe = λ hash. some "txn";
  unsubscribe = λ hash. none;
  subscribers = λ hash. some ("bob" ∷ "alice" ∷ []);
  subscribers_count = λ hash. some 2;
}

abbrev joins : MessageData
joins = record hello { content_type = some topic_subscribe; topic = some "t" }

abbrev greets : MessageData
greets = record hello { topic = some "t" }

abbrev files : Files
files = record {
  decoded_size = λ s. 100;
  can_write = λ name. not (name == "." || name == "..");
  exists = λ name. false;
  read = λ name. none;
  extname = λ name. ".png";
}

abbrev entry : ℕ → RawGroup
entry count = record {
  topic_id = some "t";
  name = some "Tea";
  description = none;
  category = none;
  subscriber_count = some count;
  avatar = none;
}

abbrev parsers : Parsers
parsers = record { announced = λ s. none; groups = λ s. none; compact = λ d. some [] }

handle_topic_control_lem_example :
    ((handle_topic_control "carol" joins 60 at_topic).0 ≡ ok tt)
    × (contains
          (subscriber_addresses "t" (handle_topic_control "carol" joins 60 at_topic).1.db)
          "carol"
        ≡ true)
unfolding Topics.find_by_id find
handle_topic_control_lem_example =
    handle_topic_control_lem "carol" "t" joins 60 at_topic (club 2 5) "t" "carol" refl refl refl

leave-Left_example :
    ((leave net "t" "l1" 70 at_topic).0 ≡ ok tt)
    × Left "t" at_topic.db (leave net "t" "l1" 70 at_topic).1.db
leave-Left_example = leave-Left net "t" "l1" "alice" 70 at_topic refl

leave-comes_back_example :
    let after = (handle_topic_message media "bob" greets 80 (leave net "t" "l1" 70 at_topic).1).1 in
    (Topics.find_by_id "t" after.db ≡ none)
    × ((m : Message) × (Messages.find_by_id "m3" after.db ≡ some m)
        × (m.session_id ≡ topic_session "t"))
unfolding Messages.find_by_id find
leave-comes_back_example =
    leave-comes_back media net "bob" "t" "alice" "l1" greets 70 80 at_topic refl refl refl refl

create_and_join-Joined_example :
    (t : Topic) × ((create_and_join net "t" "j1" 50 60 world).0 ≡ ok (some t))
    × Joined "t" ("bob" ∷ "alice" ∷ []) t (create_and_join net "t" "j1" 50 60 world).1.db
unfolding contains is_topic_name
create_and_join-Joined_example =
    create_and_join-Joined net "t" "j1" "alice" 50 60 ("bob" ∷ "alice" ∷ []) world
      (refl, (refl, tt)) refl (record { valid = refl; receipt = "txn"; taken = refl; came = refl })

run_all-counts_example :
    3
    ≡ length (
        Subscribers.find_by_topic_id "t"
          (run_all media ((control_arrives "carol" joins, 60) ∷ (lists "t", 70) ∷ []) at_topic).db)
unfolding run_all run handle_topic_control change_subscribers recount_topic show_topic
    get_subscribers resync Topics.find_by_id Topics.set_member_count Topics.set_row
    Subscribers.upsert Subscribers.find_by_topic_id Subscribers.rows_of order_asc select find update
    upsert
run_all-counts_example =
    run_all-counts media "t" ((control_arrives "carol" joins, 60) ∷ (lists "t", 70) ∷ []) at_topic
      (tt, (tt, tt)) (λ t e. ground (arith, e)) (club 3 60) refl

abbrev heard : DiscoveredGroup
heard = announced_group files "bob" 60 (record (entry 4) { topic_id = some "u" })

announced_groups_lem_example :
    (length (announced_groups files (club 2 5 ∷ []) (heard ∷ [])) ≤ 50)
    × IsKeyed announced_key (announced_groups files (club 2 5 ∷ []) (heard ∷ []))
    × (announced_groups files (club 2 5 ∷ []) (heard ∷ [])
        ≡ of_topic files (heard ∷ []) (club 2 5) ∷ of_discovered files heard ∷ [])
unfolding find select
announced_groups_lem_example =
    announced_groups_lem files (club 2 5 ∷ []) (heard ∷ []) (refl, tt) (refl, tt)

handle_announcement_comm_example :
    count_of "t"
      (handle_announcement files "bob"
        (some (entry 4 ∷ []))
        70
        (handle_announcement files "eve" (some (entry 9 ∷ [])) 60 world).1).1.db
    ≡ count_of "t"
        (handle_announcement files "eve"
          (some (entry 9 ∷ []))
          60
          (handle_announcement files "bob" (some (entry 4 ∷ [])) 70 world).1).1.db
handle_announcement_comm_example =
    handle_announcement_comm files "eve" "bob" (entry 9 ∷ []) (entry 4 ∷ []) 60 70 "t" world

abbrev avatar_name : String
avatar_name = ".._.._etc.png"

cache_avatar-safe_example :
    (has_code b'/' avatar_name ≡ false)
    × (has_code 92 avatar_name ≡ false)
    × ¬ (avatar_name ≡ ".")
    × ¬ (avatar_name ≡ "..")
    × (10 ≤ 100)
    × (100 ≤ 5 * 1024 * 1024)
unfolding cache_avatar safe_name safe_ext
cache_avatar-safe_example =
    cache_avatar-safe files "../../etc" "abc" "p/ng" avatar_name refl refl refl

stop_timers-silences_example :
    let t = stop_timers (run_timers (fires ∷ []) (start_timers Bool.false (no_timers 1))) in
    (t.armed ≡ [])
    × (((t.listeners ≡ 0) × ((run_timers (connects ∷ []) t).armed ≡ []))
        ⊎ ((t.listeners ≡ 1) × (length (step connects t).armed ≡ 4)))
stop_timers-silences_example = stop_timers-silences Bool.false 1 (fires ∷ []) (connects ∷ [])

greets-ok : (handle_topic_message media "bob" greets 80 at_topic).0 ≡ ok tt
unfolding handle_topic_message store_topic_message show_topic_message fetch_topic_media topic_label
    get_or_create_topic_session push_topic_session Messages.find_by_id Messages.insert
    Messages.row_of Sessions.find_by_id Sessions.upsert Sessions.update_last_message
    Sessions.increment_unread Sessions.set_row Contacts.find_by_address find update upsert insert
    Kinds.is_ipfs
greets-ok = refl

handle_topic_message_idempotent_example :
    handle_topic_message media "bob" greets 90
      (handle_topic_message media "bob" greets 80 at_topic).1
    ≡ (ok tt, (handle_topic_message media "bob" greets 80 at_topic).1)
handle_topic_message_idempotent_example =
    handle_topic_message_idempotent media "bob" "t" greets 80 90 at_topic refl refl greets-ok

abbrev at_heard : World
at_heard = record (stored [] []) { db = record (stored [] []).db { discovered = heard ∷ [] } }

at_heard-IsIntact : IsIntact at_heard.db
unfolding find
at_heard-IsIntact = record {
  messages = tt;
  sessions = tt;
  contacts = world-IsIntact.contacts;
  groups = tt;
  members = tt;
  topics = tt;
  subscribers = tt;
  discovered = (refl, tt);
  refers = tt;
}

find-cleanup_stale_example :
    Discovered.find_by_topic_name "u" (cleanup_stale 700000000 at_heard).1.db ≡ none
unfolding Discovered.find_by_topic_name find
find-cleanup_stale_example = find-cleanup_stale 700000000 "u" at_heard at_heard-IsIntact
