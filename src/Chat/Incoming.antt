-- ===== src/Chat/Incoming.antt =====
-- chat-service.ts: `handleIncomingMessage`, from the parsed JSON on.
pub mod Kinds
pub mod Media
pub mod Dedup
use Media.{
  file_type, is_ipfs_audio, is_ipfs_file, ipfs_hash, is_blank, session_preview, notification_body,
  has_ipfs_data,
}
use dchat_desktop.Common.{
  ℕ, ◌*◌, ◌+◌, String, Bool, true, false, not, ◌&&◌, ◌||◌, Option, none, some, List, ltb,
  if◌then◌else◌,
}
use dchat_desktop.Common.Text.{truthy, or_empty}
use Kinds.{
  is_displayable, is_topic_control, is_group_control, is_voice_call, is_text, is_contact,
  is_contact_options, is_receipt, is_read, is_discovery, is_audio, is_ipfs, or_text,
}
use dchat_desktop.Types.{
  Message, MessageData, MessageOptions, ContentType, text, text_extension, ipfs, audio, contact,
  contact_options, receipt, read, delivered, discovery_broadcast,
}
use dchat_desktop.Types.Wire.{BurnOptions, message}
use dchat_desktop.Store.Messages
use dchat_desktop.Store.Sessions
use dchat_desktop.Store.Contacts
use dchat_desktop.Chat.Notify.{View, show_notification}
use dchat_desktop.Chat.Sessions.{display_name, get_or_create_session}
use dchat_desktop.Chat.Receipts.{handle_receipt, handle_read}
use dchat_desktop.Chat.Burn.{handle_contact_options, sync_burn}
use dchat_desktop.Exec.{
  Exec, ◌>>=◌, ◌>>◌, pure, gets, modify, attempt, push, when, with_some, swallow, my_address,
  send_no_reply, on_message, on_session_update, start, download_audio, download_file,
  download_image,
}

abbrev pub Handler : Type 0
Handler = String → MessageData → Exec (Unit {0})

pub record GroupHandlers : Type 0 where
  pub control : Handler
  pub group_message : Handler

pub record TopicHandlers : Type 0 where
  pub topic_control : Handler
  pub topic_message : Handler

-- `announced` finds the announcement in a text, in base64 or in plain JSON.
pub record DiscoveryHandlers : Type 0 where
  pub broadcast : Handler
  pub announcement : String → String → Exec (Unit {0})
  pub announced : String → Option String

pub record ProfileHandlers : Type 0 where
  pub contact_message : Handler
  pub check_and_request : Handler

-- The services that the setters inject; each may be missing. `save_inline` is the audio service's
-- `saveInlineAudio`: the path of the file that it writes for an id, a content and an extension.
pub record Services : Type 0 where
  pub groups : Option GroupHandlers
  pub topics : Option TopicHandlers
  pub discovery : Option DiscoveryHandlers
  pub profile : Option ProfileHandlers
  pub voice : Option (String → ContentType → String → Exec (Unit {0}))
  pub save_inline : Option (String → String → String → String)
  pub has_images : Bool
  pub has_files : Bool

abbrev pub is_set {ℓ} : {A : Type ℓ} → Option A → Bool
is_set none = false
is_set (some _) = true

abbrev delete_after : Option MessageOptions → Option ℕ
delete_after none = none
delete_after (some o) = o.delete_after_seconds

abbrev burn_at : Option MessageOptions → ℕ
burn_at none = 0
burn_at (some o) = Contacts.or_zero o.update_burn_after_at

-- `deleteAfterSeconds && deleteAfterSeconds > 0 ? now + deleteAfterSeconds * 1000 : undefined`
abbrev pub deadline : Option ℕ → ℕ → Option ℕ
deadline none now = none
deadline (some seconds) now = if ltb 0 seconds then some (now + seconds * 1000) else none

abbrev sent_at : Option ℕ → ℕ → ℕ
sent_at none now = now
sent_at (some t) now = t

abbrev pub inbound : String → String → String → MessageData → ℕ → Message
inbound session_id src own d now = record {
  id = d.id;
  session_id = session_id;
  sender = src;
  receiver = own;
  content_type = or_text d.content_type;
  content = or_empty d.content;
  status = delivered;
  is_outbound = false;
  nkn_message_id = none;
  options = d.options;
  local_file_path = none;
  thumbnail_local_file_path = none;
  delete_at = deadline (delete_after d.options) now;
  is_delete = false;
  created_at = sent_at d.timestamp now;
  updated_at = now;
}

abbrev pub receipt_for : MessageData → String → ℕ → MessageData
receipt_for d receipt_id now = record {
  id = receipt_id;
  content_type = some receipt;
  content = none;
  options = none;
  topic = none;
  group_id = none;
  target_id = some d.id;
  read_ids = none;
  timestamp = some now;
}

-- The rows that a new message writes.
unfoldable pub store_inbound : String → String → MessageData → Message → ℕ → Exec (Unit {0})
unfolding ◌>>=◌ with_some
store_inbound session src d m now = do
  with_some (delete_after d.options) λ seconds. sync_burn src seconds (burn_at d.options) now
  attempt (Messages.insert m)
  with_some m.delete_at λ at. modify (Messages.update_delete_at m.id at now)
  modify (
      Sessions.update_last_message session
        (session_preview m.content_type (file_type d.options) m.content) m.created_at now)
  modify (Sessions.increment_unread session now)
  push (on_message m)
  s ← gets (Sessions.find_by_id session)
  push (on_session_update s)

-- `const opts = messageData.options ?? {}; if (!opts.ipfsHash && content) opts.ipfsHash = content;`
abbrev pub no_options : MessageOptions
no_options = record {
  delete_after_seconds = none;
  update_burn_after_at = none;
  profile_version = none;
  ipfs_hash = none;
  ipfs_ip = none;
  ipfs_encrypt_key_bytes = none;
  ipfs_encrypt_nonce_size = none;
  ipfs_thumbnail_hash = none;
  ipfs_thumbnail_ip = none;
  ipfs_thumbnail_encrypt_key_bytes = none;
  ipfs_thumbnail_encrypt_nonce_size = none;
  file_type = none;
  file_name = none;
  file_ext = none;
}

abbrev or_no_options : Option MessageOptions → MessageOptions
or_no_options (some o) = o
or_no_options none = no_options

abbrev pub download_options : Option MessageOptions → String → MessageOptions
download_options options content =
    if not (truthy (ipfs_hash options)) && truthy (some content)
    then record (or_no_options options) { ipfs_hash = some content }
    else or_no_options options

abbrev pub or_aac : Option MessageOptions → String
or_aac none = "aac"
or_aac (some o) = ext o.file_ext
  where
    ext : Option String → String
    ext (some e) = e
    ext none = "aac"

save_audio : (String → String → String → String) → MessageData → Message → ℕ → Exec (Unit {0})
unfolding ◌>>=◌
save_audio save d m now = do
  let path = save m.id m.content (or_aac d.options)
  modify (Messages.update_local_file_path m.id path now)
  push (on_message (record m { local_file_path = some path }))

abbrev start_download : Services → Option ℕ → MessageOptions → Message → Exec (Unit {0})
start_download services file_type opts m =
    if is_ipfs_audio m.content_type file_type && is_set services.save_inline
    then start (download_audio m opts)
    else if is_ipfs_file m.content_type file_type && services.has_files
    then start (download_file m opts)
    else if services.has_images
    then start (download_image m opts)
    else pure tt

-- Inline audio is saved to a file, and IPFS content is fetched in the background.
unfoldable pub fetch_media : Services → MessageData → Message → ℕ → Exec (Unit {0})
unfolding ◌>>=◌ when with_some save_audio
fetch_media services d m now = do
  with_some services.save_inline
      λ save. when (is_audio m.content_type && truthy (some m.content)) (save_audio save d m now)
  when (is_ipfs m.content_type && has_ipfs_data m.content_type d.options m.content)
      (start_download services (file_type d.options) (download_options d.options m.content) m)

notify : View → String → Message → Option ℕ → Exec (Unit {0})
unfolding ◌>>=◌ show_notification
notify view src m file_type = do
  c ← gets (Contacts.find_by_address src)
  show_notification view (display_name c src) (notification_body m.content_type file_type m.content)
      m.session_id

-- The part of the handler from the session on, for a message that is new.
unfoldable pub deliver :
    Services → View → String → String → MessageData → String → ℕ → Exec (Unit {0})
unfolding ◌>>=◌ with_some swallow store_inbound notify fetch_media
deliver services view src own d receipt_id now = do
  session ← get_or_create_session src now
  let m = inbound session src own d now
  store_inbound session src d m now
  notify view src m (file_type d.options)
  with_some services.profile λ p. p.check_and_request src d
  swallow (send_no_reply src (message (receipt_for d receipt_id now)))
  fetch_media services d m now

-- There is an id, and something to show: text, or media that may come without text.
unfoldable pub is_acceptable : MessageData → Bool
is_acceptable d =
    let t = or_text d.content_type in
    is_displayable t && truthy (some d.id) && (is_ipfs t || is_audio t || not (is_blank d.content))

-- A message for the direct chat: the checks before it is stored.
unfoldable pub handle_direct : Services → View → String → MessageData → String → ℕ → Exec (Unit {0})
unfolding ◌>>=◌ when with_some
handle_direct services view src d receipt_id now = when (is_acceptable d) do
  known ← gets (Messages.find_by_id d.id)
  when (not (is_set known))
      do me ← my_address; with_some me λ own. deliver services view src own d receipt_id now
