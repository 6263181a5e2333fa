-- ===== src/Chat/Burn.antt =====
-- chat-service.ts: burn after reading. The settings of a contact, and the scheduler's round.
pub mod Sweep
pub mod Options
use dchat_desktop.Common.{
  ℕ, ◌/◌, ◌*◌, ◌+◌, String, Bool, true, false, not, Option, none, some, List, [], ◌∷◌, ltb, leb,
  nat_eq, if◌then◌else◌, contains, string_eq,
}
use dchat_desktop.Common.Text.{◌++◌, decimal}
use dchat_desktop.Types.{Message, Contact, contact_options, sent, delivered}
use dchat_desktop.Types.Wire.{BurnOptions, burn_options}
use dchat_desktop.Store.Messages
use dchat_desktop.Store.Sessions
use dchat_desktop.Store.Contacts
use dchat_desktop.Store.Contacts.{or_zero}
use dchat_desktop.Chat.Sessions.{display_name, get_or_create_session}
use dchat_desktop.Exec.{
  Exec, ◌>>=◌, ◌>>◌, pure, gets, modify, attempt, push, when, with_some, for_each, swallow,
  my_address, send_no_reply, on_message, on_message_burned, on_session_update, on_contact_update,
}

unfoldable pub format_burn_duration : ℕ → String
unfolding decimal
format_burn_duration seconds =
    if leb 604800 seconds
    then decimal (seconds / 604800) ++ "w"
    else if leb 86400 seconds
    then decimal (seconds / 86400) ++ "d"
    else if leb 3600 seconds
    then decimal (seconds / 3600) ++ "h"
    else if leb 60 seconds
    then decimal (seconds / 60) ++ "m"
    else decimal seconds ++ "s"

-- A message of the service itself, about the burn setting.
abbrev system_message : String → String → String → String → String → Bool → ℕ → Message
system_message id session_id sender receiver content outbound now = record {
  id = id;
  session_id = session_id;
  sender = sender;
  receiver = receiver;
  content_type = contact_options;
  content = content;
  status = if outbound then sent else delivered;
  is_outbound = outbound;
  nkn_message_id = none;
  options = none;
  local_file_path = none;
  thumbnail_local_file_path = none;
  delete_at = none;
  is_delete = false;
  created_at = now;
  updated_at = now;
}

announce : String → ℕ → String
announce who seconds =
    if ltb 0 seconds
    then who ++ " enabled burn after reading (" ++ format_burn_duration seconds ++ ")"
    else who ++ " disabled burn after reading"

unfoldable pub send_burn_options_to_contact :
    (address : String) (seconds at : ℕ) (option_id message_id : String) (now : ℕ) → Exec (Unit {0})
unfolding ◌>>=◌ with_some announce
send_burn_options_to_contact address seconds at option_id message_id now = do
  me ← my_address
  with_some me λ own. do
    send_no_reply address (
        burn_options option_id
          (record { option_type = 0; delete_after_seconds = seconds; update_burn_after_at = at })
          now)
    session ← get_or_create_session address now
    let note = system_message message_id session own address (announce "You" seconds) true now
    attempt (Messages.insert note)
    push (on_message note)

-- A setting of the time `at` is newer than what is stored; nothing is stored for an unknown contact.
abbrev pub is_stale : Option Contact → ℕ → Bool
is_stale (some c) at = leb at (or_zero c.burn_update_at)
is_stale none at = false

abbrev pub is_newer : Option Contact → ℕ → Bool
is_newer (some c) at = ltb (or_zero c.burn_update_at) at
is_newer none at = false

abbrev push_contact : String → Exec (Unit {0})
push_contact address = gets (Contacts.find_by_address address) >>= λ updated.
    with_some updated λ c. push (on_contact_update c)

note_burn : String → ℕ → String → ℕ → Exec (Unit {0})
unfolding ◌>>=◌ with_some announce
note_burn src seconds message_id now = do
  me ← my_address
  with_some me λ own. do
    session ← get_or_create_session src now
    contact ← gets (Contacts.find_by_address src)
    let content = announce (display_name contact src) seconds
    let note = system_message message_id session src own content false now
    attempt (Messages.insert note)
    push (on_message note)

-- A setting that is newer: it is stored, shown, and noted in the thread.
store_burn : String → BurnOptions → String → ℕ → Exec (Unit {0})
unfolding ◌>>=◌ with_some note_burn
store_burn src o message_id now = do
  modify (Contacts.update_burn_options src o.delete_after_seconds o.update_burn_after_at now)
  push_contact src
  note_burn src o.delete_after_seconds message_id now

-- The body of the `try` in `handleContactOptions`.
apply_burn : String → BurnOptions → String → ℕ → Exec (Unit {0})
unfolding ◌>>=◌ when store_burn
apply_burn src o message_id now = when (nat_eq o.option_type 0) do
  existing ← gets (Contacts.find_by_address src)
  when (not (is_stale existing o.update_burn_after_at)) (store_burn src o message_id now)

-- `none` is a content that does not parse, which the handler catches.
unfoldable pub handle_contact_options : String → Option BurnOptions → String → ℕ → Exec (Unit {0})
unfolding swallow apply_burn with_some
handle_contact_options src content message_id now =
    swallow (with_some content λ o. apply_burn src o message_id now)

-- The sync of the setting from the options of an incoming message.
unfoldable pub sync_burn : String → ℕ → ℕ → ℕ → Exec (Unit {0})
unfolding ◌>>=◌ when with_some
sync_burn src seconds at now = do
  existing ← gets (Contacts.find_by_address src)
  when (is_newer existing at)
      do modify (Contacts.update_burn_options src seconds at now); push_contact src

burn_one : ℕ → Message → Exec (Unit {0})
unfolding ◌>>=◌
burn_one now m = do
  modify (Messages.mark_deleted m.id now)
  push (on_message_burned m.id m.session_id)

-- `new Set<string>()`, filled in the order of the messages.
affected : List Message → List String → List String
affected [] seen = []
affected (m ∷ ms) seen =
    if contains seen m.session_id
    then affected ms seen
    else m.session_id ∷ affected ms (m.session_id ∷ seen)

clear_preview : ℕ → String → Exec (Unit {0})
unfolding ◌>>=◌
clear_preview now id = do
  modify (Sessions.update_last_message id "" now now)
  session ← gets (Sessions.find_by_id id)
  push (on_session_update session)

-- One round of the scheduler, every five seconds.
unfoldable pub burn_round : ℕ → Exec (Unit {0})
unfolding ◌>>=◌ swallow for_each burn_one affected clear_preview
burn_round now = swallow do
  expired ← gets (Messages.find_expired now)
  for_each expired (burn_one now)
  for_each (affected expired []) (clear_preview now)
