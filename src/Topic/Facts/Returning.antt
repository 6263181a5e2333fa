-- ===== src/Topic/Facts/Returning.antt =====
-- topic-service.ts: a topic that was left comes back as a session when a message for it arrives.
use dchat_desktop.Common.{ℕ, String, true, none, some, List, ◌≡◌, string_eq, arith}
use dchat_desktop.Common.Text.{truthy}
use dchat_desktop.Types.{Message, MessageData}
use dchat_desktop.Types.Topic.{Topic, TopicSubscriber}
use dchat_desktop.Table.{find, find-delete_other}
use dchat_desktop.Store.Db.{Db, message_key, topic_key}
use dchat_desktop.Store.Topics
use dchat_desktop.Store.Messages
use dchat_desktop.Store.Sessions
use dchat_desktop.Store.Subscribers
use dchat_desktop.Group.Messages.{Media}
use dchat_desktop.Topic.Session.{topic_session}
use dchat_desktop.Topic.Joining.{Network, begin_leave, finish_leave, leave}
use dchat_desktop.Topic.Messages.{handle_topic_message}
use dchat_desktop.Topic.Facts.Leaving.{
  unsubscribe-same, leave-gone, leave-Left, begin_leave-db, gone,
}
use dchat_desktop.Topic.Facts.Untouched.{handle_topic_message-About}
use dchat_desktop.Topic.Facts.Stored.{handle_topic_message-files}
use dchat_desktop.Exec.{World, next}

begin_leave-account :
    (name id own : String) (now : ℕ) (w : World)
    → w.account ≡ some own
    → (begin_leave name id now w).1.account ≡ some own
unfolding begin_leave
begin_leave-account name id own now w h = ground (arith, h)

leave-account :
    (net : Network) (name id own : String) (now : ℕ) (w : World)
    → w.account ≡ some own
    → (leave net name id now w).1.account ≡ some own
unfolding leave finish_leave
leave-account net name id own now w h =
    rw
      (
        (begin_leave-db name id own now w h).0,
        next,
        unsubscribe-same net name (begin_leave name id now w).1,
      )
      (begin_leave-account name id own now w h)

gone-unknown :
    (name id : String) (db : Db)
    → Messages.find_by_id id db ≡ none
    → Messages.find_by_id id (gone name db) ≡ none
unfolding Topics.delete_by_id Sessions.delete_by_id Messages.delete_by_session_id
    Subscribers.delete_by_topic_id Messages.find_by_id
gone-unknown name id db h =
    find-delete_other message_key (λ m. m.session_id) (topic_session name) id _
      (find-delete_other message_key (λ m. m.session_id) (topic_session name) id db.messages h)

-- The topic is not known.
abbrev Unknown : String → List Topic → List TopicSubscriber → Type 0
Unknown name topics rows = find topic_key name topics ≡ none

-- Leaving does not last: a message that is sent to the topic after the client has left it, by someone
-- whose list still has the client, is stored in a session of the topic, although the topic stays
-- unknown.
pub leave-comes_back :
    (media : Media) (net : Network) (src name own id : String) (d : MessageData) (now later : ℕ)
    (w : World)
    → d.topic ≡ some name
    → truthy d.topic ≡ true
    → w.account ≡ some own
    → Messages.find_by_id d.id w.db ≡ none
    → let after = (handle_topic_message media src d later (leave net name id now w).1).1 in
      (Topics.find_by_id name after.db ≡ none)
      × ((m : Message) × (Messages.find_by_id d.id after.db ≡ some m)
          × (m.session_id ≡ topic_session name))
unfolding Topics.find_by_id
leave-comes_back media net src name own id d now later w named valid h e =
    let left = (leave net name id now w).1 in
    let l = leave-Left net name id own now w h in
    (
      ((handle_topic_message-About (Unknown name) media src d later).at left
          (record { tables = l.1.topic })).tables,
      handle_topic_message-files media src name d later left named valid own
          (leave-account net name id own now w h)
          (rw ((leave-gone net name id own now w h).1) (gone-unknown name d.id w.db e)),
    )
