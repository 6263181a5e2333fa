-- ===== src/Topic/Session.antt =====
-- topic-service.ts: the session of a topic, and the subscribers that a message goes to.
use dchat_desktop.Common.{
  ℕ, String, Bool, false, not, Option, none, List, map, select, string_eq, ◌==◌,
}
use dchat_desktop.Common.Text.{◌++◌}
use dchat_desktop.Types.{Message, MessageData, MessageOptions, ContentType, Status, Session, topic}
use dchat_desktop.Types.Topic.{TopicSubscriber}
use dchat_desktop.Store.Db.{Db, is_some}
use dchat_desktop.Store.Sessions
use dchat_desktop.Store.Subscribers
use dchat_desktop.Exec.{Exec, ◌>>=◌, gets, modify, push, when, on_session_update}

-- `topic:${topicName}`
abbrev pub topic_session : String → String
topic_session name = "topic:" ++ name

abbrev pub new_topic_session : String → ℕ → Session
new_topic_session name now = record {
  id = topic_session name;
  kind = topic;
  target_address = name;
  target_name = "#" ++ name;
  last_message_content = "";
  last_message_at = now;
  unread_count = 0;
  muted = false;
  created_at = now;
  updated_at = now;
}

unfoldable pub get_or_create_topic_session : String → ℕ → Exec (Unit {0})
unfolding ◌>>=◌ when
get_or_create_topic_session name now = do
  existing ← gets (Sessions.find_by_id (topic_session name))
  when (not (is_some existing)) (modify (Sessions.upsert (new_topic_session name now)))

unfoldable pub push_topic_session : String → Exec (Unit {0})
unfolding ◌>>=◌
push_topic_session name = do
  s ← gets (Sessions.find_by_id (topic_session name))
  push (on_session_update s)

abbrev pub address_of : TopicSubscriber → String
address_of s = s.contact_address

unfoldable pub subscriber_addresses : String → Db → List String
subscriber_addresses name db = map address_of (Subscribers.find_by_topic_id name db)

abbrev pub is_other : String → String → Bool
is_other own address = not (address == own)

-- The subscribers except the own address.
unfoldable pub other_subscribers : String → String → Db → List String
unfolding subscriber_addresses
other_subscribers name own db = select (is_other own) (subscriber_addresses name db)

abbrev pub topic_data : String → ContentType → (id : String) → (now : ℕ) → MessageData
topic_data name t id now = record {
  id = id;
  content_type = Option.some t;
  content = none;
  options = none;
  topic = Option.some name;
  group_id = none;
  target_id = none;
  read_ids = none;
  timestamp = Option.some now;
}

abbrev pub topic_row :
    (name id sender : String)
    → ContentType
    → (content : String) → Status
    → (is_outbound : Bool) → Option MessageOptions
    → (created_at now : ℕ) → Message
topic_row name id sender t content status is_outbound options created_at now = record {
  id = id;
  session_id = topic_session name;
  sender = sender;
  receiver = name;
  content_type = t;
  content = content;
  status = status;
  is_outbound = is_outbound;
  nkn_message_id = none;
  options = options;
  local_file_path = none;
  thumbnail_local_file_path = none;
  delete_at = none;
  is_delete = false;
  created_at = created_at;
  updated_at = now;
}
