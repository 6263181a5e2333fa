-- ===== src/Chat/Outgoing.antt =====
-- chat-service.ts: `sendMessage`, which is split at its `await`, and `markSessionRead`.
pub mod Lifecycle
pub mod Reading
pub mod Safety
use Prim.Native.String.{[], ◌∷◌}
use Prim.Native.Char.{code}
use dchat_desktop.Common.{
  ℕ, ◌+◌, ◌*◌, String, Bool, true, false, not, length, ◌&&◌, ◌||◌, Option, none, some, List, ltb,
  nat_eq, if◌then◌else◌, map,
}
use dchat_desktop.Common.Text.{truthy}
use dchat_desktop.Types.{
  Message, MessageData, MessageOptions, ContentType, Contact, Status, text, text_extension, sending,
  sent, failed, read,
}
use dchat_desktop.Types.Wire.{message}
use dchat_desktop.Store.Messages
use dchat_desktop.Store.Sessions
use dchat_desktop.Store.Contacts
use dchat_desktop.Chat.Sessions.{get_or_create_session}
use dchat_desktop.Chat.Incoming.{no_options}
use dchat_desktop.Chat.Incoming.Kinds.{or_text}
use dchat_desktop.Exec.{
  Exec, ◌>>=◌, ◌>>◌, pure, gets, modify, attempt, push, when, with_some, swallow, my_address,
  require, not_connected, send_no_reply, on_message, on_session_update,
}

-- `contact?.burnAfterSeconds ?? 0`, and `contact?.burnUpdateAt`
abbrev pub burn_seconds : Option Contact → ℕ
burn_seconds none = 0
burn_seconds (some c) = Contacts.or_zero c.burn_after_seconds

abbrev pub burn_update : Option Contact → Option ℕ
burn_update none = none
burn_update (some c) = c.burn_update_at

-- Text that burns is sent as `textExtension`.
abbrev is_plain : ContentType → Bool
is_plain text = true
is_plain _ = false

abbrev pub outgoing_type : Option Contact → Option ContentType → ContentType
outgoing_type contact t =
    if ltb 0 (burn_seconds contact) && is_plain (or_text t) then text_extension else or_text t

abbrev unless_empty : Option String → Option String
unless_empty version = if truthy version then version else none

abbrev pub outgoing_options : Option Contact → Option String → Option MessageOptions
outgoing_options contact version =
    let o = record no_options { profile_version = unless_empty version } in
    if ltb 0 (burn_seconds contact)
    then some (record o {
      delete_after_seconds = some (burn_seconds contact);
      update_burn_after_at = burn_update contact;
    })
    else if truthy version
    then some o
    else none

abbrev pub outgoing_data :
    Option Contact → Option String → Option ContentType → String → String → ℕ → MessageData
outgoing_data contact version t content id now = record {
  id = id;
  content_type = some (outgoing_type contact t);
  content = some content;
  options = outgoing_options contact version;
  topic = none;
  group_id = none;
  target_id = none;
  read_ids = none;
  timestamp = some now;
}

abbrev pub outgoing :
    Option Contact → Option ContentType → String → String → String → String → String → ℕ → Message
outgoing contact t session own to content id now = record {
  id = id;
  session_id = session;
  sender = own;
  receiver = to;
  content_type = outgoing_type contact t;
  content = content;
  status = sending;
  is_outbound = true;
  nkn_message_id = none;
  options = none;
  local_file_path = none;
  thumbnail_local_file_path = none;
  delete_at =
      if ltb 0 (burn_seconds contact) then some (now + burn_seconds contact * 1000) else none;
  is_delete = false;
  created_at = now;
  updated_at = now;
}

-- `sendMessage` up to its `await`; the profile version comes from the profile service, if there is one.
unfoldable pub begin_send :
    (to content : String)
    → Option ContentType
    → (version : Option String) (id : String) (now : ℕ) → Exec Message
unfolding ◌>>=◌ with_some
begin_send to content t version id now = do
  me ← my_address
  own ← require me not_connected
  session ← get_or_create_session to now
  contact ← gets (Contacts.find_by_address to)
  let m = outgoing contact t session own to content id now
  attempt (Messages.insert m)
  with_some m.delete_at λ at. modify (Messages.update_delete_at id at now)
  modify (Sessions.update_last_message session content now now)
  push (on_message m)
  s ← gets (Sessions.find_by_id session)
  push (on_session_update s)
  send_no_reply to (message (outgoing_data contact version t content id now))
  pure m

-- What follows the `await`: the recipient's client has acknowledged, or the send has failed.
unfoldable pub finish_send : Message → Bool → ℕ → Exec (Unit {0})
unfolding ◌>>=◌
finish_send m acknowledged now =
    let status = if acknowledged then sent else failed in
    modify (Messages.update_status m.id status now)
    >> push (on_message (record m { status = status }))

-- The address in a direct session's id; none for the other sessions.
unfoldable pub after_prefix : String → String → Option String
after_prefix [] s = some s
after_prefix (p ∷ ps) [] = none
after_prefix (p ∷ ps) (c ∷ s) = if nat_eq (code p) (code c) then after_prefix ps s else none

abbrev pub read_receipt : List Message → String → ℕ → MessageData
read_receipt ms id now = record {
  id = id;
  content_type = some ContentType.read;
  content = none;
  options = none;
  topic = none;
  group_id = none;
  target_id = none;
  read_ids = some (map (λ m. m.id) ms);
  timestamp = some now;
}

send_read : String → List Message → String → ℕ → Exec (Unit {0})
unfolding ◌>>=◌ when swallow
send_read target ms id now = when (not (nat_eq (length ms) 0)) do
  modify (Messages.update_status_batch (map (λ m. m.id) ms) Status.read now)
  swallow (send_no_reply target (message (read_receipt ms id now)))

unfoldable pub mark_session_read : String → String → ℕ → Exec (Unit {0})
unfolding ◌>>=◌ with_some send_read
mark_session_read session id now = do
  modify (Sessions.reset_unread session now)
  s ← gets (Sessions.find_by_id session)
  push (on_session_update s)
  with_some (after_prefix "direct:" session) λ target. do
    unread ← gets (Messages.find_inbound_by_session_id_and_status session Status.read)
    send_read target unread id now
