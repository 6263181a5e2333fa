-- ===== src/Store/Sessions.antt =====
-- session-repository.ts
use dchat_desktop.Common.{ℕ, ◌+◌, String, Bool, false, Option, List, string_eq}
use dchat_desktop.Types.{Session}
use dchat_desktop.Table.{find, update, delete}
use dchat_desktop.Table
use dchat_desktop.Table.Order.{order_desc}
use dchat_desktop.Store.Db.{Db, session_key}

-- The INSERT leaves `muted` at its default, and a conflict keeps it, the type and the target.
abbrev pub row_of : Session → Session
row_of s = record s { muted = false }

abbrev pub merge : Session → Session → Session
merge excluded s = record s {
  target_name = excluded.target_name;
  last_message_content = excluded.last_message_content;
  last_message_at = excluded.last_message_at;
  unread_count = excluded.unread_count;
  updated_at = excluded.updated_at;
}

unfoldable pub upsert : Session → Db → Db
upsert s db = record db { sessions = Table.upsert session_key merge (row_of s) db.sessions }

unfoldable pub find_all : Db → List Session
find_all db = order_desc (λ s. s.last_message_at) db.sessions

unfoldable pub find_by_id : String → Db → Option Session
find_by_id id db = find session_key id db.sessions

unfoldable pub find_by_target_address : String → Db → Option Session
find_by_target_address target db = find (λ s. s.target_address) target db.sessions

-- UPDATE session SET ... WHERE id = ?
unfoldable pub set_row : String → (Session → Session) → Db → Db
set_row id f db = record db { sessions = update session_key id f db.sessions }

unfoldable pub update_last_message : String → String → ℕ → ℕ → Db → Db
update_last_message id content timestamp now db =
    set_row id
      (λ s. record s {
        last_message_content = content;
        last_message_at = timestamp;
        updated_at = now;
      })
      db

unfoldable pub increment_unread : String → ℕ → Db → Db
increment_unread id now db =
    set_row id (λ s. record s { unread_count = s.unread_count + 1; updated_at = now }) db

unfoldable pub reset_unread : String → ℕ → Db → Db
reset_unread id now db = set_row id (λ s. record s { unread_count = 0; updated_at = now }) db

unfoldable pub update_target_name : String → String → ℕ → Db → Db
update_target_name id name now db =
    set_row id (λ s. record s { target_name = name; updated_at = now }) db

unfoldable pub set_muted : String → Bool → ℕ → Db → Db
set_muted id muted now db = set_row id (λ s. record s { muted = muted; updated_at = now }) db

-- ON DELETE CASCADE: the messages of the session go with it.
unfoldable pub delete_by_id : String → Db → Db
delete_by_id id db = record db {
  sessions = delete session_key id db.sessions;
  messages = delete (λ m. m.session_id) id db.messages;
}
