-- ===== src/Chat/Route.antt =====
-- chat-service.ts: the router at the head of `handleIncomingMessage`. The payload is read up to the
-- JSON value that it holds, in plain text or in base64.
pub mod Safety
use dchat_desktop.Common.{ℕ, String, Bool, true, false, ◌&&◌, Option, none, some, if◌then◌else◌}
use dchat_desktop.Common.Text.{truthy, or_empty}
use dchat_desktop.Types.{MessageData, ContentType, text}
use dchat_desktop.Types.Wire.{BurnOptions}
use dchat_desktop.Chat.Notify.{View}
use dchat_desktop.Chat.Receipts.{handle_receipt, handle_read}
use dchat_desktop.Chat.Burn.{handle_contact_options}
use dchat_desktop.Chat.Incoming.Kinds.{
  is_displayable, is_topic_control, is_group_control, is_voice_call, is_text, is_contact,
  is_contact_options, is_receipt, is_read, is_discovery, or_text,
}
use dchat_desktop.Chat.Incoming.{
  Services, GroupHandlers, TopicHandlers, DiscoveryHandlers, ProfileHandlers, is_set, handle_direct,
}
use dchat_desktop.Exec.{Exec, ◌>>=◌, ◌>>◌, pure, when, with_some}

-- `malformed` is a payload that is no JSON. An announcement comes with its text in base64; a message
-- comes with the burn options in its content, if that is such an object.
pub data Incoming : Type 0 where
  malformed : Incoming
  announcement : String → Incoming
  data_message : MessageData → Option BurnOptions → Incoming

-- The fresh values of one call: two ids, and the time.
pub record Fresh : Type 0 where
  pub first_id : String
  pub second_id : String
  pub now : ℕ

abbrev pub topic_copy : String → Fresh → MessageData
topic_copy content fresh = record {
  id = fresh.first_id;
  content_type = some text;
  content = some content;
  options = none;
  topic = some "publicGroups";
  group_id = none;
  target_id = none;
  read_ids = none;
  timestamp = some fresh.now;
}

module _ (services : Services) (view : View) (src : String) where
  route_announcement : String → Fresh → Exec (Unit {0})
  unfolding ◌>>=◌ with_some
  route_announcement content fresh = do
    with_some services.discovery λ d. d.announcement src content
    with_some services.topics λ t. t.topic_message src (topic_copy content fresh)

  -- An announcement that stands in the text of a topic message.
  find_announcement : MessageData → ContentType → Exec (Unit {0})
  unfolding with_some when
  find_announcement d t = with_some services.discovery λ s.
      when (is_text t && truthy d.content)
        (with_some (s.announced (or_empty d.content)) λ a. s.announcement src a)

  route_topic : TopicHandlers → MessageData → ContentType → Exec (Unit {0})
  unfolding ◌>>=◌ when find_announcement
  route_topic topics d t = do
    when (is_displayable t) (topics.topic_message src d)
    find_announcement d t

  -- The branches from the contact profile on: those of the direct chat.
  route_direct : MessageData → Option BurnOptions → ContentType → Fresh → Exec (Unit {0})
  unfolding with_some
  route_direct d burn t fresh =
      if is_contact t && is_set services.profile
      then with_some services.profile (λ p. p.contact_message src d)
      else if is_contact_options t
      then handle_contact_options src burn fresh.first_id fresh.now
      else if is_receipt t && truthy d.target_id
      then handle_receipt (or_empty d.target_id) fresh.now
      else if is_read t && is_set d.read_ids
      then with_some d.read_ids (λ ids. handle_read ids fresh.now)
      else handle_direct services view src d fresh.first_id fresh.now

  route_message : MessageData → Option BurnOptions → ContentType → Fresh → Exec (Unit {0})
  unfolding with_some when
  route_message d burn t fresh =
      if is_group_control t
      then with_some services.groups (λ g. g.control src d)
      else if truthy d.group_id && is_set services.groups
      then when (is_displayable t) (with_some services.groups (λ g. g.group_message src d))
      else if is_discovery t && is_set services.discovery
      then with_some services.discovery (λ s. s.broadcast src d)
      else if is_voice_call t && is_set services.voice
      then with_some services.voice (λ v. v src t (or_empty d.content))
      else if is_topic_control t && is_set services.topics
      then with_some services.topics (λ s. s.topic_control src d)
      else if truthy d.topic && is_set services.topics
      then with_some services.topics (λ s. route_topic s d t)
      else route_direct d burn t fresh

  unfoldable pub handle_incoming : Incoming → Fresh → Exec (Unit {0})
  unfolding route_announcement route_message route_topic route_direct
  handle_incoming malformed fresh = pure tt
  handle_incoming (announcement content) fresh = route_announcement content fresh
  handle_incoming (data_message d burn) fresh = route_message d burn (or_text d.content_type) fresh
