-- ===== src/Chat/Sessions.antt =====
-- chat-service.ts: the one session of each counterparty.
pub mod Keeping
pub mod Migration
pub mod Consolidation
use dchat_desktop.Common.{ℕ, String, Option, none, some, ◌==◌, string_eq, if◌then◌else◌, false}
use dchat_desktop.Common.Text.{◌++◌, short}
use dchat_desktop.Types.{Session, Contact, direct}
use dchat_desktop.Store.Messages
use dchat_desktop.Store.Sessions
use dchat_desktop.Store.Contacts
use dchat_desktop.Exec.{Exec, ◌>>=◌, ◌>>◌, pure, gets, modify, attempt}

-- `direct:${targetAddress}`
abbrev pub direct_id : String → String
direct_id target = "direct:" ++ target

-- `contact?.name ?? address.substring(0, 8) + "..."`
abbrev pub display_name : Option Contact → String → String
display_name (some c) address = c.name
display_name none address = short address

abbrev pub fresh_session : String → Option Contact → ℕ → Session
fresh_session target contact now = record {
  id = direct_id target;
  kind = direct;
  target_address = target;
  target_name = display_name contact target;
  last_message_content = "";
  last_message_at = now;
  unread_count = 0;
  muted = false;
  created_at = now;
  updated_at = now;
}

-- A session found under another id is a legacy one: its messages move to the new id, and it goes.
migrate : String → ℕ → Option Session → Exec (Option Session)
unfolding ◌>>=◌
migrate target now none = pure none
migrate target now (some s) = if s.id == direct_id target then pure (some s) else do
  attempt (Messages.update_session_id s.id (direct_id target) now)
  modify (Sessions.delete_by_id s.id)
  pure none

or_legacy : String → ℕ → Option Session → Exec (Option Session)
unfolding ◌>>=◌ migrate
or_legacy target now (some s) = pure (some s)
or_legacy target now none = do
  legacy ← gets (Sessions.find_by_target_address target)
  migrate target now legacy

or_create : String → ℕ → Option Session → Exec String
unfolding ◌>>=◌
or_create target now (some s) = pure s.id
or_create target now none = do
  contact ← gets (Contacts.find_by_address target)
  modify (Sessions.upsert (fresh_session target contact now))
  pure (direct_id target)

unfoldable pub get_or_create_session : String → ℕ → Exec String
unfolding ◌>>=◌ or_legacy or_create
get_or_create_session target now = do
  known ← gets (Sessions.find_by_id (direct_id target))
  found ← or_legacy target now known
  or_create target now found
