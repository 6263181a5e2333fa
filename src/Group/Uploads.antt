-- ===== src/Group/Uploads.antt =====
-- private-group-service.ts: `sendGroupImage`, `sendGroupAudio` and `sendGroupFile`, each split at the
-- `await` of its upload, and the downloads from IPFS. What an upload gives is a parameter, none where
-- it throws; so is what the media service answers to each attempt of a download.
pub mod Settled
use dchat_desktop.Common.{
  ℕ, ◌+◌, String, Bool, true, false, not, ◌&&◌, Option, none, some, List, [], ◌∷◌, length, ltb,
  select, if◌then◌else◌,
}
use dchat_desktop.Common.Text.{truthy}
use dchat_desktop.Types.{
  Message, MessageData, MessageOptions, ContentType, ipfs, audio, sending, sent, failed,
}
use dchat_desktop.Types.Group.{PrivateGroup}
use dchat_desktop.Types.Wire.{message}
use dchat_desktop.Store.Groups
use dchat_desktop.Store.Messages
use dchat_desktop.Store.Sessions
use dchat_desktop.Chat.Downloads.{download}
use dchat_desktop.Group.Payload.{◌or_else◌}
use dchat_desktop.Group.Session.{group_session, get_or_create_group_session, notice, push_session}
use dchat_desktop.Group.Sync.{active_addresses, is_other}
use dchat_desktop.Group.Messages.{try_catch, group_data, finish_with, send_to_all}
use dchat_desktop.Group.Owner.{throw_if}
use dchat_desktop.Exec.{
  Exec, ◌>>=◌, ◌>>◌, pure, gets, modify, attempt, push, when, with_some, my_address, require,
  send_to_multiple, on_message, not_connected, group_not_found, service_missing,
}

-- `processAndUpload`: a thumbnail comes with images only.
pub record Uploaded : Type 0 where
  pub content : String
  pub options : MessageOptions
  pub path : String
  pub thumbnail : Option String

-- An image's content is the hash that its upload has put into the options.
abbrev pub image_upload : MessageOptions → (path thumbnail : String) → Uploaded
image_upload options path thumbnail = record {
  content = options.ipfs_hash or_else "";
  options = options;
  path = path;
  thumbnail = some thumbnail;
}

-- The checks of the three methods: the own address, and the group.
unfoldable pub begin_media : Bool → String → Exec (String × PrivateGroup)
unfolding ◌>>=◌ throw_if
begin_media present group_id = do
  throw_if (not present) service_missing
  address ← my_address
  own ← require address not_connected
  found ← gets (Groups.find_by_id group_id)
  g ← require found group_not_found
  pure (own, g)

-- `sendGroupImage` and `sendGroupFile` up to the upload, with the preview `[Image]` or `[File]`.
unfoldable pub begin_upload : Bool → (group_id preview id : String) → ℕ → Exec (String × Message)
unfolding ◌>>=◌ begin_media
begin_upload present group_id preview id now = do
  (own, g) ← begin_media present group_id
  let m = notice id group_id own group_id ipfs "" sending true none now now
  get_or_create_group_session group_id g.name now
  attempt (Messages.insert m)
  modify (Sessions.update_last_message (group_session group_id) preview now now)
  push (on_message m)
  push_session group_id
  pure (own, m)

abbrev pub uploaded_message : Uploaded → Message → Message
uploaded_message r m = record m {
  content = r.content;
  options = some r.options;
  local_file_path = some r.path;
  thumbnail_local_file_path = r.thumbnail;
}

abbrev pub media_data : String → Message → Uploaded → MessageData
media_data group_id m r = record (group_data group_id r.content m.content_type m.id m.created_at) {
  options = some r.options;
}

unfoldable pub send_uploaded : (group_id own : String) → Message → Uploaded → ℕ → Exec Message
unfolding ◌>>=◌ when with_some
send_uploaded group_id own m r now = do
  active ← gets (active_addresses group_id)
  let dests = select (is_other own) active
  when (ltb 0 (length dests)) (send_to_multiple dests (message (media_data group_id m r)))
  finish_with sent (uploaded_message r m) now

unfoldable pub store_uploaded : Message → Uploaded → ℕ → Exec (Unit {0})
unfolding ◌>>=◌ with_some
store_uploaded m r now = do
  modify (Messages.update_content m.id r.content now)
  modify (Messages.update_options m.id r.options now)
  modify (Messages.update_local_file_path m.id r.path now)
  with_some r.thumbnail λ path. modify (Messages.update_thumbnail_local_file_path m.id path now)
  push (on_message (uploaded_message r m))

-- What follows the upload of an image or a file.
unfoldable pub finish_upload :
    (group_id own : String) → Message → Option Uploaded → ℕ → Exec Message
unfolding ◌>>=◌ try_catch store_uploaded
finish_upload group_id own m none now = finish_with failed m now
finish_upload group_id own m (some r) now = do
  store_uploaded m r now
  try_catch (send_uploaded group_id own m r now) (finish_with failed (uploaded_message r m) now)

-- `sendGroupAudio` from its upload on; `sent_at` is the time before it.
unfoldable pub finish_audio :
    (group_id id : String) → (sent_at : ℕ) → String × PrivateGroup → Uploaded → ℕ → Exec Message
unfolding ◌>>=◌
finish_audio group_id id sent_at (own, g) r now = do
  let m =
      record (notice id group_id own group_id audio r.content sending true (some r.options) sent_at
        sent_at) { local_file_path = some r.path }
  get_or_create_group_session group_id g.name now
  attempt (Messages.insert m)
  modify (Messages.update_options id r.options now)
  modify (Messages.update_local_file_path id r.path now)
  modify (Sessions.update_last_message (group_session group_id) "[Audio]" sent_at now)
  push (on_message m)
  push_session group_id
  active ← gets (active_addresses group_id)
  send_to_all (select (is_other own) active) (media_data group_id m r) m now

abbrev is_set : Option (List ℕ) → Bool
is_set (some (k ∷ ks)) = true
is_set _ = false

abbrev has_thumbnail : MessageOptions → Bool
has_thumbnail o = truthy o.ipfs_thumbnail_hash && is_set o.ipfs_thumbnail_encrypt_key_bytes

-- The message that the full download goes on with.
abbrev pub with_thumbnail : Option String → Message → Message
with_thumbnail none m = m
with_thumbnail (some path) m = record m { thumbnail_local_file_path = some path }

-- `downloadGroupIpfsThumbnailThenFull`: `thumbnail` is what the image service answers for the thumbnail,
-- and `attempt` for the k-th attempt at the image.
unfoldable pub download_thumbnail_then_full :
    Bool → Message → MessageOptions → Option String → (ℕ → Option String) → ℕ → Exec (Unit {0})
unfolding ◌>>=◌ when with_some
download_thumbnail_then_full present m opts thumbnail attempt now =
    if has_thumbnail opts && present
    then (do
      with_some thumbnail λ path. do
        modify (Messages.update_thumbnail_local_file_path m.id path now)
        push (on_message (with_thumbnail thumbnail m))
      download present (with_thumbnail thumbnail m) opts attempt now)
    else download present m opts attempt now
