-- ===== src/Store/Db.antt =====
-- src/main/db/migrations: the tables, and the keys that SQLite enforces on them
-- (`PRAGMA foreign_keys = ON` in src/main/db/database.ts).
use dchat_desktop.Common.{
  All, String, List, ◌≡◌, Option, some, Bool, true, false, string_eq, pair_eq,
}
use dchat_desktop.Types.{Message, Session, Contact}
use dchat_desktop.Types.Group.{PrivateGroup, Member}
use dchat_desktop.Types.Topic.{Topic, TopicSubscriber, DiscoveredGroup}
use dchat_desktop.Table.{find, IsKeyed}

pub record Db : Type 0 where
  pub messages : List Message
  pub sessions : List Session
  pub contacts : List Contact
  pub groups : List PrivateGroup
  pub members : List Member
  pub topics : List Topic
  pub subscribers : List TopicSubscriber
  pub discovered : List DiscoveredGroup

-- The primary keys.
abbrev pub message_key : Message → String
message_key m = m.id

abbrev pub session_key : Session → String
session_key s = s.id

abbrev pub contact_key : Contact → String
contact_key c = c.address

abbrev pub group_key : PrivateGroup → String
group_key g = g.group_id

abbrev pub member_key : Member → String × String
member_key m = (m.group_id, m.invitee)

abbrev pub topic_key : Topic → String
topic_key t = t.id

abbrev pub subscriber_key : TopicSubscriber → String × String
subscriber_key s = (s.topic_id, s.contact_address)

abbrev pub discovered_key : DiscoveredGroup → String
discovered_key g = g.topic_name

abbrev pub is_some {ℓ} : {A : Type ℓ} → Option A → Bool
is_some (some a) = true
is_some _ = false

-- FOREIGN KEY (session_id) REFERENCES session(id)
abbrev pub Refers : List Session → List Message → Type 0
Refers sessions messages =
    All (λ m. is_some (find session_key m.session_id sessions) ≡ true) messages

-- What SQLite guarantees of the database between two statements.
pub record IsIntact (db : Db) : Type 0 where
  pub messages : IsKeyed message_key db.messages
  pub sessions : IsKeyed session_key db.sessions
  pub contacts : IsKeyed contact_key db.contacts
  pub groups : IsKeyed group_key db.groups
  pub members : IsKeyed member_key db.members
  pub topics : IsKeyed topic_key db.topics
  pub subscribers : IsKeyed subscriber_key db.subscribers
  pub discovered : IsKeyed discovered_key db.discovered
  pub refers : Refers db.sessions db.messages
