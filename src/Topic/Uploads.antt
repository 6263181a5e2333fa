-- ===== src/Topic/Uploads.antt =====
-- topic-service.ts: `sendTopicImage`, `sendTopicAudio` and `sendTopicFile`, each split at the `await`
-- of its upload. What an upload gives is a parameter, none where it throws.
use dchat_desktop.Common.{ℕ, String, Bool, true, not, Option, none, some, length, ltb}
use dchat_desktop.Types.{Message, MessageData, ipfs, audio, sending, sent, failed}
use dchat_desktop.Types.Wire.{message}
use dchat_desktop.Store.Messages
use dchat_desktop.Store.Sessions
use dchat_desktop.Group.Owner.{throw_if}
use dchat_desktop.Group.Messages.{try_catch, finish_with, send_to_all}
use dchat_desktop.Group.Uploads.{Uploaded, uploaded_message, store_uploaded}
use dchat_desktop.Topic.Session.{
  topic_session, get_or_create_topic_session, push_topic_session, other_subscribers, topic_data,
  topic_row,
}
use dchat_desktop.Exec.{
  Exec, ◌>>=◌, ◌>>◌, pure, gets, modify, attempt, push, when, my_address, require, send_to_multiple,
  on_message, not_connected, service_missing,
}

-- The checks of the three methods.
unfoldable pub begin_topic_media : Bool → Exec String
unfolding ◌>>=◌ throw_if
begin_topic_media present = do
  throw_if (not present) service_missing
  address ← my_address
  require address not_connected

-- `sendTopicImage` and `sendTopicFile` up to the upload, with the preview `[Image]` or `[File]`.
unfoldable pub begin_topic_upload : Bool → (name preview id : String) → ℕ → Exec (String × Message)
unfolding ◌>>=◌ begin_topic_media
begin_topic_upload present name preview id now = do
  own ← begin_topic_media present
  let m = topic_row name id own ipfs "" sending true none now now
  get_or_create_topic_session name now
  attempt (Messages.insert m)
  modify (Sessions.update_last_message (topic_session name) preview now now)
  push (on_message m)
  push_topic_session name
  pure (own, m)

abbrev pub topic_media_data : String → Message → Uploaded → MessageData
topic_media_data name m r = record (topic_data name m.content_type m.id m.created_at) {
  content = some r.content;
  options = some r.options;
}

unfoldable pub send_topic_uploaded : (name own : String) → Message → Uploaded → ℕ → Exec Message
unfolding ◌>>=◌ when
send_topic_uploaded name own m r now = do
  dests ← gets (other_subscribers name own)
  when (ltb 0 (length dests)) (send_to_multiple dests (message (topic_media_data name m r)))
  finish_with sent (uploaded_message r m) now

-- What follows the upload of an image or a file.
unfoldable pub finish_topic_upload :
    (name own : String) → Message → Option Uploaded → ℕ → Exec Message
unfolding ◌>>=◌ try_catch store_uploaded
finish_topic_upload name own m none now = finish_with failed m now
finish_topic_upload name own m (some r) now = do
  store_uploaded m r now
  try_catch (send_topic_uploaded name own m r now) (finish_with failed (uploaded_message r m) now)

-- `sendTopicAudio` from its upload on; `sent_at` is the time before it.
unfoldable pub finish_topic_audio :
    (name id own : String) → (sent_at : ℕ) → Uploaded → ℕ → Exec Message
unfolding ◌>>=◌
finish_topic_audio name id own sent_at r now = do
  let m =
      record (topic_row name id own audio r.content sending true (some r.options) sent_at sent_at) {
        local_file_path = some r.path;
      }
  get_or_create_topic_session name now
  attempt (Messages.insert m)
  modify (Messages.update_options id r.options now)
  modify (Messages.update_local_file_path id r.path now)
  modify (Sessions.update_last_message (topic_session name) "[Audio]" sent_at now)
  push (on_message m)
  push_topic_session name
  dests ← gets (other_subscribers name own)
  send_to_all dests (topic_media_data name m r) m now
