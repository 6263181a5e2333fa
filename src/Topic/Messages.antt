-- ===== src/Topic/Messages.antt =====
-- topic-service.ts: sending a message to a topic, and what comes in for one.
use dchat_desktop.Common.{
  ℕ, String, Bool, not, ◌&&◌, Option, none, some, List, length, if◌then◌else◌,
}
use dchat_desktop.Common.Text.{◌++◌, truthy, or_empty}
use dchat_desktop.Types.{
  Message, MessageData, MessageOptions, ContentType, sending, delivered, topic_subscribe,
  topic_unsubscribe,
}
use dchat_desktop.Types.Topic.{Topic}
use dchat_desktop.Store.Db.{Db, is_some}
use dchat_desktop.Store.Topics
use dchat_desktop.Store.Subscribers
use dchat_desktop.Store.Messages
use dchat_desktop.Store.Sessions
use dchat_desktop.Store.Contacts
use dchat_desktop.Chat.Notify.{show_notification}
use dchat_desktop.Chat.Incoming.{download_options, or_aac}
use dchat_desktop.Chat.Incoming.Kinds.{or_text, is_audio, is_ipfs}
use dchat_desktop.Chat.Incoming.Media.{file_type, is_type, is_ipfs_image, has_ipfs_data}
use dchat_desktop.Group.Payload.{◌or_else◌}
use dchat_desktop.Group.Session.{sender_name}
use dchat_desktop.Group.Messages.{Media, send_to_all}
use dchat_desktop.Topic.Session.{
  topic_session, get_or_create_topic_session, push_topic_session, other_subscribers, topic_data,
  topic_row,
}
use dchat_desktop.Topic.Joining.{show_topic}
use dchat_desktop.Exec.{
  Exec, ◌>>=◌, ◌>>◌, pure, gets, modify, attempt, push, when, with_some, my_address, require, start,
  download_audio, download_file, download_image, on_message, not_connected,
}

unfoldable pub send_topic_message :
    (name content : String) → ContentType → (id : String) → (now : ℕ) → Exec Message
unfolding ◌>>=◌
send_topic_message name content t id now = do
  address ← my_address
  own ← require address not_connected
  let m = topic_row name id own t content sending Bool.true none now now
  get_or_create_topic_session name now
  attempt (Messages.insert m)
  modify (Sessions.update_last_message (topic_session name) content now now)
  push (on_message m)
  push_topic_session name
  dests ← gets (other_subscribers name own)
  send_to_all dests (record (topic_data name t id now) { content = some content }) m now

unfoldable pub recount_topic : String → ℕ → Exec (Unit {0})
unfolding ◌>>=◌
recount_topic name now = do
  subs ← gets (Subscribers.find_by_topic_id name)
  modify (Topics.set_member_count name (length subs) now)

unfoldable pub change_subscribers : Option ContentType → (name src : String) → ℕ → Exec (Unit {0})
unfolding ◌>>=◌ recount_topic
change_subscribers (some topic_subscribe) name src now = do
  modify (Subscribers.upsert name src now)
  recount_topic name now
change_subscribers (some topic_unsubscribe) name src now = do
  modify (Subscribers.delete_by_topic_and_address name src)
  recount_topic name now
change_subscribers t name src now = pure tt

unfoldable pub handle_topic_control : String → MessageData → ℕ → Exec (Unit {0})
unfolding ◌>>=◌ when with_some change_subscribers show_topic
handle_topic_control src d now =
    let name = or_empty d.topic in
    when (truthy d.topic) do
      known ← gets (Topics.find_by_id name)
      with_some known λ t. do change_subscribers d.content_type name src now; show_topic name

-- The three ways to name the medium, and the text itself. An IPFS message is a file or an image here.
unfoldable pub topic_label : ContentType → Option ℕ → (file image audio plain : String) → String
topic_label t file_type file image audio plain =
    if is_ipfs t
    then if is_type file_type 0 then file else image
    else if is_audio t
    then audio
    else plain

abbrev pub topic_inbound : String → String → MessageData → ℕ → Message
topic_inbound name src d now =
    topic_row name d.id src (or_text d.content_type) (or_empty d.content) delivered Bool.false
      d.options (d.timestamp or_else now) now

save_topic_audio : (String → String → String → String) → MessageData → Message → ℕ → Exec (Unit {0})
unfolding ◌>>=◌
save_topic_audio save d m now = do
  let path = save m.id m.content (or_aac d.options)
  modify (Messages.update_local_file_path m.id path now)
  push (on_message (record m { local_file_path = some path }))

abbrev start_topic_download : Media → Option ℕ → MessageOptions → Message → Exec (Unit {0})
start_topic_download media file_type opts m =
    if is_ipfs_image m.content_type file_type && media.has_images
    then start (download_image m opts)
    else if is_type file_type 2 && is_some media.save_inline
    then start (download_audio m opts)
    else if is_type file_type 0 && media.has_files
    then start (download_file m opts)
    else pure tt

unfoldable pub fetch_topic_media : Media → MessageData → Message → ℕ → Exec (Unit {0})
unfolding ◌>>=◌ when with_some save_topic_audio
fetch_topic_media media d m now = do
  with_some media.save_inline λ save.
      when (is_audio m.content_type && truthy (some m.content)) (save_topic_audio save d m now)
  when (is_ipfs m.content_type && has_ipfs_data m.content_type d.options m.content)
      (start_topic_download media (file_type d.options) (download_options d.options m.content) m)

-- What follows the INSERT of a new message.
unfoldable pub show_topic_message :
    Media → (name : String) → (by : String) → MessageData → Message → ℕ → Exec (Unit {0})
unfolding ◌>>=◌ with_some fetch_topic_media
show_topic_message media name by d m now = do
  modify (
      Sessions.update_last_message (topic_session name)
        (by
          ++ topic_label m.content_type (file_type d.options) "[File]" "[Image]" "[Audio]"
              m.content)
        m.created_at now)
  modify (Sessions.increment_unread (topic_session name) now)
  push (on_message m)
  push_topic_session name
  with_some media.notification λ view.
      show_notification view ("#" ++ name)
        (by
          ++ topic_label m.content_type (file_type d.options) "File" "Image" "Voice Message"
              m.content)
        (topic_session name)
  fetch_topic_media media d m now

unfoldable pub store_topic_message : Media → (name src : String) → MessageData → ℕ → Exec (Unit {0})
unfolding ◌>>=◌
store_topic_message media name src d now = do
  get_or_create_topic_session name now
  contact ← gets (Contacts.find_by_address src)
  attempt (Messages.insert (topic_inbound name src d now))
  show_topic_message media name (sender_name contact src ++ ": ") d (topic_inbound name src d now)
      now

-- Whether the topic was joined is not asked.
unfoldable pub handle_topic_message : Media → String → MessageData → ℕ → Exec (Unit {0})
unfolding ◌>>=◌ when with_some
handle_topic_message media src d now =
    let name = or_empty d.topic in
    when (truthy d.topic) do
      me ← my_address
      with_some me λ own. do
        known ← gets (Messages.find_by_id d.id)
        when (not (is_some known)) (store_topic_message media name src d now)

unfoldable pub list_topics : Db → List Topic
list_topics db = Topics.find_all db

unfoldable pub get_topic : String → Db → Option Topic
get_topic name db = Topics.find_by_id name db
