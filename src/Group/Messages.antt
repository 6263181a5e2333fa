-- ===== src/Group/Messages.antt =====
-- private-group-service.ts: `sendGroupMessage` and `handleIncomingGroupMessage`.
use dchat_desktop.Common.{
  ℕ, String, Bool, true, false, not, ◌&&◌, Option, none, some, List, [], ◌∷◌, select, string_eq,
  if◌then◌else◌,
}
use dchat_desktop.Common.Text.{◌++◌, truthy, or_empty}
use dchat_desktop.Types.{
  Message, MessageData, MessageOptions, ContentType, Status, sending, sent, failed, delivered,
}
use dchat_desktop.Types.Group.{PrivateGroup}
use dchat_desktop.Types.Wire.{message}
use dchat_desktop.Store.Db.{is_some}
use dchat_desktop.Store.Groups
use dchat_desktop.Store.Members
use dchat_desktop.Store.Messages
use dchat_desktop.Store.Sessions
use dchat_desktop.Store.Contacts
use dchat_desktop.Chat.Notify.{View, show_notification}
use dchat_desktop.Chat.Incoming.{download_options, or_aac}
use dchat_desktop.Chat.Incoming.Kinds.{or_text, is_audio, is_ipfs}
use dchat_desktop.Chat.Incoming.Media.{
  file_type, is_ipfs_audio, is_ipfs_file, is_ipfs_image, session_preview, notification_body,
  has_ipfs_data,
}
use dchat_desktop.Group.Payload.{◌or_else◌}
use dchat_desktop.Group.Session.{
  group_session, get_or_create_group_session, notice, push_session, sender_name,
}
use dchat_desktop.Group.Sync.{active_addresses, is_other, is_active_member}
use dchat_desktop.Exec.{
  Exec, ◌>>=◌, ◌>>◌, pure, gets, modify, attempt, push, when, with_some, my_address, require,
  Result, ok, err, World, send_to_multiple, start, download_audio, download_file, download_image,
  on_message, not_connected, group_not_found,
}

-- The services for media and the notification callback; each may be missing.
pub record Media : Type 0 where
  pub save_inline : Option (String → String → String → String)
  pub has_images : Bool
  pub has_files : Bool
  pub notification : Option View

module _ {A : Type 0} where
  abbrev pub or_try : Result A × World → Exec A → Result A × World
  or_try (ok a, w) handler = (ok a, w)
  or_try (err e, w) handler = handler w

  -- `try { body } catch (err) { handler }`
  unfoldable pub try_catch : Exec A → Exec A → Exec A
  try_catch body handler w = or_try (body w) handler

abbrev pub group_data : String → String → ContentType → String → ℕ → MessageData
group_data group_id content t id now = record {
  id = id;
  content_type = some t;
  content = some content;
  options = none;
  topic = none;
  group_id = some group_id;
  target_id = none;
  read_ids = none;
  timestamp = some now;
}

unfoldable pub finish_with : Status → Message → ℕ → Exec Message
unfolding ◌>>=◌
finish_with status m now = do
  modify (Messages.update_status m.id status now)
  push (on_message (record m { status = status }))
  pure (record m { status = status })

-- To the other active members, if there are any.
unfoldable pub send_to_all : List String → MessageData → Message → ℕ → Exec Message
unfolding ◌>>=◌ try_catch
send_to_all [] d m now = finish_with sent m now
send_to_all (dest ∷ dests) d m now =
    try_catch (send_to_multiple (dest ∷ dests) (message d) >> finish_with sent m now)
      (finish_with failed m now)

unfoldable pub send_group_message :
    (group_id content : String) → ContentType → (id : String) → (now : ℕ) → Exec Message
unfolding ◌>>=◌ send_to_all
send_group_message group_id content t id now = do
  address ← my_address
  own ← require address not_connected
  found ← gets (Groups.find_by_id group_id)
  g ← require found group_not_found
  let m = notice id group_id own group_id t content sending true none now now
  get_or_create_group_session group_id g.name now
  attempt (Messages.insert m)
  modify (Sessions.update_last_message (group_session group_id) content now now)
  push (on_message m)
  push_session group_id
  active ← gets (active_addresses group_id)
  send_to_all (select (is_other own) active) (group_data group_id content t id now) m now

abbrev pub group_inbound : String → String → MessageData → ℕ → Message
group_inbound group_id src d now =
    notice d.id group_id src group_id (or_text d.content_type) (or_empty d.content) delivered false
      d.options (d.timestamp or_else now) now

save_audio : (String → String → String → String) → MessageData → Message → ℕ → Exec (Unit {0})
unfolding ◌>>=◌
save_audio save d m now = do
  let path = save m.id m.content (or_aac d.options)
  modify (Messages.update_local_file_path m.id path now)
  push (on_message (record m { local_file_path = some path }))

abbrev start_download : Media → Option ℕ → MessageOptions → Message → Exec (Unit {0})
start_download media file_type opts m =
    if is_ipfs_audio m.content_type file_type && is_some media.save_inline
    then start (download_audio m opts)
    else if is_ipfs_file m.content_type file_type && media.has_files
    then start (download_file m opts)
    else if is_ipfs_image m.content_type file_type && media.has_images
    then start (download_image m opts)
    else pure tt

unfoldable pub fetch_group_media : Media → MessageData → Message → ℕ → Exec (Unit {0})
unfolding ◌>>=◌ when with_some save_audio
fetch_group_media media d m now = do
  with_some media.save_inline
      λ save. when (is_audio m.content_type && truthy (some m.content)) (save_audio save d m now)
  when (is_ipfs m.content_type && has_ipfs_data m.content_type d.options m.content)
      (start_download media (file_type d.options) (download_options d.options m.content) m)

-- What a new message of an active member writes and shows.
unfoldable pub store_group_message :
    Media → PrivateGroup → String → String → MessageData → ℕ → Exec (Unit {0})
unfolding ◌>>=◌ with_some fetch_group_media
store_group_message media g group_id src d now = do
  get_or_create_group_session group_id g.name now
  contact ← gets (Contacts.find_by_address src)
  let m = group_inbound group_id src d now
  let by = sender_name contact src ++ ": "
  attempt (Messages.insert m)
  modify (
      Sessions.update_last_message (group_session group_id)
        (by ++ session_preview m.content_type (file_type d.options) m.content) m.created_at now)
  modify (Sessions.increment_unread (group_session group_id) now)
  push (on_message m)
  push_session group_id
  with_some media.notification λ view.
      show_notification view g.name
        (by ++ notification_body m.content_type (file_type d.options) m.content)
        (group_session group_id)
  fetch_group_media media d m now

unfoldable pub handle_group_message : Media → String → MessageData → ℕ → Exec (Unit {0})
unfolding ◌>>=◌ when with_some
handle_group_message media src d now =
    let group_id = or_empty d.group_id in
    when (truthy d.group_id) do
      me ← my_address
      with_some me λ own. do
        sender ← gets (Members.find_by_group_id_and_invitee group_id src)
        when (is_active_member sender) do
          known ← gets (Messages.find_by_id d.id)
          when (not (is_some known)) do
            found ← gets (Groups.find_by_id group_id)
            with_some found λ g. store_group_message media g group_id src d now
