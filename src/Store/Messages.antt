-- ===== src/Store/Messages.antt =====
-- message-repository.ts. `now` is the `Date.now()` of the statement; `none` is a constraint that
-- SQLite refuses to violate, which better-sqlite3 throws.
use dchat_desktop.Common.{
  ℕ, String, Bool, true, false, not, ◌&&◌, Option, none, some, List, [], ◌∷◌, leb, if◌then◌else◌,
  ◌==◌, string_eq, select, contains, take, drop, map,
}
use dchat_desktop.Types.{Message, MessageOptions, Status}
use dchat_desktop.Types.{sending, sent, delivered, read, failed}
use dchat_desktop.Table.{find, update, delete}
use dchat_desktop.Table
use dchat_desktop.Table.Order.{order_asc, order_desc}
use dchat_desktop.Store.Db.{Db, message_key, session_key, is_some}

abbrev pub status_eq : Status → Status → Bool
status_eq sending sending = true
status_eq sent sent = true
status_eq delivered delivered = true
status_eq read read = true
status_eq failed failed = true
status_eq _ _ = false

-- The columns of the INSERT: `delete_at`, `is_delete` and the thumbnail take their defaults.
unfoldable pub row_of : Message → Message
row_of m = record m { delete_at = none; is_delete = false; thumbnail_local_file_path = none }

unfoldable pub insert : Message → Db → Option Db
unfolding row_of
insert m db = elim (find session_key m.session_id db.sessions) [
  | none ↦ none
  | some _ ↦ elim (Table.insert message_key (row_of m) db.messages) [
    | none ↦ none
    | some rows ↦ some (record db { messages = rows })
  ]
]

unfoldable pub find_by_id : String → Db → Option Message
find_by_id id db = find message_key id db.messages

-- UPDATE message SET ... WHERE id = ?
unfoldable pub set_row : String → (Message → Message) → Db → Db
set_row id f db = record db { messages = update message_key id f db.messages }

abbrev pub with_status : Status → ℕ → Message → Message
with_status status now m = record m { status = status; updated_at = now }

unfoldable pub update_status : String → Status → ℕ → Db → Db
update_status id status now db = set_row id (with_status status now) db

unfoldable pub update_local_file_path : String → String → ℕ → Db → Db
update_local_file_path id path now db =
    set_row id (λ m. record m { local_file_path = some path; updated_at = now }) db

unfoldable pub update_thumbnail_local_file_path : String → String → ℕ → Db → Db
update_thumbnail_local_file_path id path now db =
    set_row id (λ m. record m { thumbnail_local_file_path = some path; updated_at = now }) db

unfoldable pub update_options : String → MessageOptions → ℕ → Db → Db
update_options id options now db =
    set_row id (λ m. record m { options = some options; updated_at = now }) db

unfoldable pub update_content : String → String → ℕ → Db → Db
update_content id content now db =
    set_row id (λ m. record m { content = content; updated_at = now }) db

unfoldable pub update_delete_at : String → ℕ → ℕ → Db → Db
update_delete_at id at now db =
    set_row id (λ m. record m { delete_at = some at; updated_at = now }) db

abbrev pub as_deleted : ℕ → Message → Message
as_deleted now m = record m { is_delete = true; updated_at = now }

unfoldable pub mark_deleted : String → ℕ → Db → Db
mark_deleted id now db = set_row id (as_deleted now) db

-- The rows of a session move to another one, which must exist if there are such rows.
abbrev pub in_session : String → Message → Bool
in_session session_id m = m.session_id == session_id

abbrev pub move_to : String → String → ℕ → Message → Message
move_to old new now m =
    if in_session old m then record m { session_id = new; updated_at = now } else m

unfoldable pub update_session_id : String → String → ℕ → Db → Option Db
update_session_id old new now db =
    let moved = record db { messages = map (move_to old new now) db.messages } in
    elim (select (in_session old) db.messages) [
      | [] ↦ some db
      | _ ↦ if is_some (find session_key new db.sessions) then some moved else none
    ]

-- UPDATE message SET status = ? WHERE id IN (...)
abbrev pub with_status_in : List String → Status → ℕ → Message → Message
with_status_in ids status now m = if contains ids m.id then with_status status now m else m

unfoldable pub update_status_batch : List String → Status → ℕ → Db → Db
update_status_batch [] status now db = db
update_status_batch (i ∷ ids) status now db = record db {
  messages = map (with_status_in (i ∷ ids) status now) db.messages;
}

unfoldable pub delete_by_session_id : String → Db → Db
delete_by_session_id session_id db = record db {
  messages = delete (λ m. m.session_id) session_id db.messages;
}

abbrev pub is_live_in : String → Message → Bool
is_live_in session_id m = in_session session_id m && not m.is_delete

unfoldable pub find_by_session_id : String → ℕ → ℕ → Db → List Message
find_by_session_id session_id limit offset db =
    order_asc (λ m. m.created_at)
      (take limit
        (drop offset (order_desc (λ m. m.created_at) (select (is_live_in session_id) db.messages))))

abbrev pub is_inbound_not : String → Status → Message → Bool
is_inbound_not session_id status m =
    in_session session_id m && not m.is_outbound && not (status_eq m.status status)

unfoldable pub find_inbound_by_session_id_and_status : String → Status → Db → List Message
find_inbound_by_session_id_and_status session_id exclude db =
    order_asc (λ m. m.created_at) (select (is_inbound_not session_id exclude) db.messages)

abbrev due : ℕ → Option ℕ → Bool
due before none = false
due before (some at) = leb at before

abbrev pub is_expired : ℕ → Message → Bool
is_expired before m = due before m.delete_at && not m.is_delete

unfoldable pub find_expired : ℕ → Db → List Message
find_expired before db = select (is_expired before) db.messages
