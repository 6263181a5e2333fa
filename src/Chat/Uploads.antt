-- ===== src/Chat/Uploads.antt =====
-- chat-service.ts: `sendImageMessage`, `sendAudioMessage` and `sendFileMessage`, each split at the
-- `await` of its upload; and `retryAudioDownload`. What an upload gives is a parameter.
pub mod Settled
pub mod Keeping
use dchat_desktop.Common.{
  ℕ, String, Bool, true, false, not, ◌&&◌, ◌||◌, Option, none, some, ltb, if◌then◌else◌,
}
use dchat_desktop.Common.Text.{truthy}
use dchat_desktop.Types.{Message, MessageData, MessageOptions, ContentType, Contact, sent, failed}
use dchat_desktop.Types.Wire.{message}
use dchat_desktop.Store.Messages
use dchat_desktop.Store.Sessions
use dchat_desktop.Store.Contacts
use dchat_desktop.Chat.Sessions.{get_or_create_session}
use dchat_desktop.Chat.Incoming.{or_aac}
use dchat_desktop.Chat.Incoming.Kinds.{is_ipfs, is_audio}
use dchat_desktop.Chat.Incoming.Media.{is_type}
use dchat_desktop.Chat.Downloads.{again}
use dchat_desktop.Chat.Outgoing.{burn_seconds, burn_update, outgoing, outgoing_data}
use dchat_desktop.Group.Messages.{try_catch, finish_with}
use dchat_desktop.Group.Owner.{throw_if}
use dchat_desktop.Group.Uploads.{Uploaded, uploaded_message, store_uploaded}
use dchat_desktop.Exec.{
  Exec, ◌>>=◌, ◌>>◌, pure, gets, modify, attempt, push, when, with_some, my_address, require,
  send_no_reply, on_message, on_session_update, not_connected, service_missing,
}

-- Up to the upload: the message, and the contact as it was then. The type is `ipfs` or `audio`, and the
-- preview `[Image]`, `[Voice Message]` or `[File]`.
unfoldable pub begin_direct_upload :
    Bool → (to : String) → ContentType → (preview id : String) → ℕ → Exec (Message × Option Contact)
unfolding ◌>>=◌ with_some throw_if
begin_direct_upload present to t preview id now = do
  throw_if (not present) service_missing
  me ← my_address
  own ← require me not_connected
  session ← get_or_create_session to now
  contact ← gets (Contacts.find_by_address to)
  let m = outgoing contact (some t) session own to "" id now
  attempt (Messages.insert m)
  with_some m.delete_at λ at. modify (Messages.update_delete_at id at now)
  modify (Sessions.update_last_message session preview now now)
  push (on_message m)
  s ← gets (Sessions.find_by_id session)
  push (on_session_update s)
  pure (m, contact)

abbrev pub with_burn : Option Contact → MessageOptions → MessageOptions
with_burn contact o =
    if ltb 0 (burn_seconds contact)
    then record o {
      delete_after_seconds = some (burn_seconds contact);
      update_burn_after_at = burn_update contact;
    }
    else o

abbrev pub with_version : Option String → MessageOptions → MessageOptions
with_version version o = if truthy version then record o { profile_version = version } else o

abbrev pub direct_data : Message → String → MessageOptions → MessageData
direct_data m content options = record {
  id = m.id;
  content_type = some m.content_type;
  content = some content;
  options = some options;
  topic = none;
  group_id = none;
  target_id = none;
  read_ids = none;
  timestamp = some m.created_at;
}

-- The rows first, then the packet with all its options.
unfoldable pub finish_stored :
    (to : String) → Message → Uploaded → MessageOptions → ℕ → Exec Message
unfolding ◌>>=◌ try_catch
finish_stored to m r options now = do
  store_uploaded m r now
  try_catch
      (send_no_reply to (message (direct_data m r.content options))
        >> finish_with sent (uploaded_message r m) now)
      (finish_with failed (uploaded_message r m) now)

-- An image is stored with its burn options, audio and files without them.
unfoldable pub finish_image :
    (to : String)
    → Message
    → Option Contact
    → (version : Option String) → Option Uploaded
    → ℕ
    → Exec Message
unfolding finish_stored
finish_image to m contact version none now = finish_with failed m now
finish_image to m contact version (some r) now =
    let stored = record r { options = with_burn contact r.options } in
    finish_stored to m stored (with_version version stored.options) now

unfoldable pub finish_audio_or_file :
    (to : String)
    → Message
    → Option Contact
    → (version : Option String) → Option Uploaded
    → ℕ
    → Exec Message
unfolding finish_stored
finish_audio_or_file to m contact version none now = finish_with failed m now
finish_audio_or_file to m contact version (some r) now =
    finish_stored to m r (with_burn contact (with_version version r.options)) now

abbrev is_ipfs_retry : Message → MessageOptions → Bool
is_ipfs_retry m opts =
    ((is_ipfs m.content_type && is_type opts.file_type 2)
      || (is_audio m.content_type && truthy opts.ipfs_hash))
    && truthy opts.ipfs_hash

retry_inline : (String → String → String → String) → Message → ℕ → Exec (Unit {0})
unfolding ◌>>=◌
retry_inline save m now = do
  let path = save m.id m.content (or_aac m.options)
  modify (Messages.update_local_file_path m.id path now)
  push (on_message (record m { local_file_path = some path }))

-- `save_inline` is there if the audio service is, which then answers the attempts too.
retry_message :
    Option (String → String → String → String) → (ℕ → Option String) → ℕ → Message → Exec (Unit {0})
unfolding ◌>>=◌ when with_some again retry_inline
retry_message none attempt now m =
    with_some m.options λ opts. when (is_ipfs_retry m opts) (again false m.id opts attempt now)
retry_message (some save) attempt now m =
    if is_audio m.content_type && truthy (some m.content)
    then retry_inline save m now
    else with_some m.options λ opts. when (is_ipfs_retry m opts) (again true m.id opts attempt now)

unfoldable pub retry_audio_download :
    Option (String → String → String → String)
    → (id : String) → (ℕ → Option String)
    → ℕ
    → Exec (Unit {0})
unfolding ◌>>=◌ with_some retry_message
retry_audio_download save id attempt now = do
  found ← gets (Messages.find_by_id id)
  with_some found λ m. retry_message save attempt now m
