-- ===== src/Topic/Facts.antt =====
-- topic-service.ts: facts about the topics and their subscribers, which the sessions, the messages and
-- what is sent do not touch.
pub mod Subscribers
pub mod Counts
pub mod Leaving
pub mod Replacing
pub mod Joined
pub mod Sequences
pub mod Untouched
pub mod Control
pub mod Stored
pub mod Returning
use dchat_desktop.Common.{ℕ, String, Option, none, some, List, [], ◌∷◌, ◌≡◌, refl, arith}
use dchat_desktop.Types.{Message, MessageData, Session, Status}
use dchat_desktop.Types.Topic.{Topic, TopicSubscriber}
use dchat_desktop.Store.Db.{Db}
use dchat_desktop.Store.Messages
use dchat_desktop.Store.Sessions
use dchat_desktop.Topic.Session.{get_or_create_topic_session, push_topic_session}
use dchat_desktop.Exec.{
  Exec, World, modify, attempt, Keeps, IsQuiet, Keeps-modify, Keeps-attempt, keeps_rules,
}

pub record About (R : List Topic → List TopicSubscriber → Type 0) (w : World) : Type 0 where
  pub tables : R w.db.topics w.db.subscribers

insert-tables :
    (m : Message) (db db' : Db)
    → Messages.insert m db ≡ some db'
    → (db'.topics ≡ db.topics) × (db'.subscribers ≡ db.subscribers)
unfolding Messages.insert
insert-tables m db db' h = ground arith

module _ (R : List Topic → List TopicSubscriber → Type 0) where
  pub About-IsQuiet : IsQuiet (About R)
  About-IsQuiet = record {
    sending = λ w s h. record { tables = h.tables };
    pushing = λ w p h. record { tables = h.tables };
    starting = λ w t h. record { tables = h.tables };
  }

  pub upsert_session-About : (s : Session) → Keeps (About R) (modify (Sessions.upsert s))
  unfolding Sessions.upsert
  upsert_session-About s = Keeps-modify _ (λ w v. record { tables = v.tables })

  pub delete_session-About : (id : String) → Keeps (About R) (modify (Sessions.delete_by_id id))
  unfolding Sessions.delete_by_id
  delete_session-About id = Keeps-modify _ (λ w v. record { tables = v.tables })

  pub update_last_message-About :
      (id content : String) (at now : ℕ)
      → Keeps (About R) (modify (Sessions.update_last_message id content at now))
  unfolding Sessions.update_last_message Sessions.set_row
  update_last_message-About id content at now = Keeps-modify _ (λ w v. record { tables = v.tables })

  pub increment_unread-About :
      (id : String) (now : ℕ) → Keeps (About R) (modify (Sessions.increment_unread id now))
  unfolding Sessions.increment_unread Sessions.set_row
  increment_unread-About id now = Keeps-modify _ (λ w v. record { tables = v.tables })

  pub update_local_file_path-About :
      (id path : String) (now : ℕ)
      → Keeps (About R) (modify (Messages.update_local_file_path id path now))
  unfolding Messages.update_local_file_path Messages.set_row
  update_local_file_path-About id path now = Keeps-modify _ (λ w v. record { tables = v.tables })

  pub update_status-About :
      (id : String) (s : Status) (now : ℕ)
      → Keeps (About R) (modify (Messages.update_status id s now))
  unfolding Messages.update_status Messages.set_row
  update_status-About id s now = Keeps-modify _ (λ w v. record { tables = v.tables })

  pub delete_messages-About :
      (id : String) → Keeps (About R) (modify (Messages.delete_by_session_id id))
  unfolding Messages.delete_by_session_id
  delete_messages-About id = Keeps-modify _ (λ w v. record { tables = v.tables })

  pub insert-About : (m : Message) → Keeps (About R) (attempt (Messages.insert m))
  insert-About m = Keeps-attempt _ (λ w db v h.
      let same = insert-tables m w.db db h in record { tables = rw (same.0, same.1) v.tables })

  pub ruleset table_rules = (
    keeps_rules, About-IsQuiet, upsert_session-About, delete_session-About,
    update_last_message-About, increment_unread-About, update_local_file_path-About,
    update_status-About, delete_messages-About, insert-About,
  )

  pub get_or_create_topic_session-About :
      (name : String) (now : ℕ) → Keeps (About R) (get_or_create_topic_session name now)
  unfolding get_or_create_topic_session
  get_or_create_topic_session-About name now = search table_rules depth 10

  pub push_topic_session-About : (name : String) → Keeps (About R) (push_topic_session name)
  unfolding push_topic_session
  push_topic_session-About name = search table_rules depth 10

  pub ruleset about_rules =
      (table_rules, get_or_create_topic_session-About, push_topic_session-About)
