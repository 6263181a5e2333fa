-- ===== src/Chat/Outgoing/Reading.antt =====
-- What `markSessionRead` leaves, and what it tells the other side.
use mathlib.Core.Option
use mathlib.Core.List.{append-nil}
use dchat_desktop.Common.{
  none, Option-cases, if◌then◌else◌, ◌==◌, not, ◌&&◌, ℕ, String, Bool, true, false, some, List, [],
  ◌∷◌, ◌≡◌, refl, sym, ap, ◌∙◌, arith, map, ◌++◌, select, contains, string_eq, Bool-cases, inl, inr,
}
use text.Mathlib.TextEquality.{eq_iff}
use dchat_desktop.Types.{Message, read}
use dchat_desktop.Table.Order.{order_asc, contains-order_asc}
use dchat_desktop.Table.{find, find-key, IsKeyed}
use dchat_desktop.Store.Db.{Db, message_key}
use dchat_desktop.Store.Messages.{
  find_by_id, status_eq, is_inbound_not, with_status_in, update_status_batch,
  find_inbound_by_session_id_and_status,
}
use dchat_desktop.Exec.{World, Sent}
use dchat_desktop.Types.Wire.{message}
use dchat_desktop.Chat.Outgoing.{mark_session_read, after_prefix, send_read, read_receipt}
use dchat_desktop.Store.Sessions

abbrev ids_of : List Message → List String
ids_of ms = map (λ m. m.id) ms

-- If `f` takes the rows that `ids` lists out of `p`, keeps the others, and `ids` lists the rows of `p`,
-- then no row of `p` is left.
module _ (p : Message → Bool) (f : Message → Message) (ids : List String)
    (listed : (m : Message) → contains ids m.id ≡ true → p (f m) ≡ false)
    (other : (m : Message) → contains ids m.id ≡ false → f m ≡ m) where
  taken : (m : Message) → (p m ≡ true → contains ids m.id ≡ true) → p (f m) ≡ false
  taken m h = elim (Bool-cases (contains ids m.id)) [
    | inl c ↦ listed m c
    | inr c ↦ elim (Bool-cases (p m)) [ inl b ↦ listed m (h b) | inr b ↦ rw (other m c) b ]
  ]

  head_listed :
      (m : Message) (ms : List Message)
      → p m ≡ true
      → contains (ids_of (select p (m ∷ ms))) m.id ≡ true
  unfolding select contains
  head_listed m ms b = rw b (ground (arith, eq_iff m.id m.id))

  tail_listed :
      (m : Message) (ms : List Message) (j : String)
      → contains (ids_of (select p ms)) j ≡ true
      → contains (ids_of (select p (m ∷ ms))) j ≡ true
  unfolding select contains
  tail_listed m ms j c = ground (arith, c)

  select-map_eq_nil :
      (ms : List Message)
      → ((j : String) → contains (ids_of (select p ms)) j ≡ true → contains ids j ≡ true)
      → select p (map f ms) ≡ []
  unfolding select
  select-map_eq_nil [] h = refl
  select-map_eq_nil (m ∷ ms) h =
      rw (taken m (λ b. h m.id (head_listed m ms b)))
        (select-map_eq_nil ms (λ j c. h j (tail_listed m ms j c)))

-- An inbound message of the session that is not read yet, and these messages, oldest first.
abbrev pub is_unread : String → Message → Bool
is_unread session m =
    (m.session_id == session) && not m.is_outbound && not (status_eq m.status read)

abbrev pub unread : String → Db → List Message
unread session db = order_asc (λ m. m.created_at) (select (is_unread session) db.messages)

module _ (session : String) (ids : List String) (now : ℕ) where
  listed_read :
      (m : Message)
      → contains ids m.id ≡ true
      → is_inbound_not session read (with_status_in ids read now m) ≡ false
  listed_read m c = rw c (ground arith)

  other_kept : (m : Message) → contains ids m.id ≡ false → with_status_in ids read now m ≡ m
  other_kept m c = rw c refl

  kept_all : (ms : List Message) → map (with_status_in [] read now) ms ≡ ms
  unfolding contains
  kept_all [] = refl
  kept_all (m ∷ ms) = rw (kept_all ms) refl

messages-update_status_batch :
    (ids : List String) (now : ℕ) (db : Db)
    → (update_status_batch ids read now db).messages ≡ map (with_status_in ids read now) db.messages
unfolding update_status_batch
messages-update_status_batch [] now db = sym (kept_all "" [] now db.messages)
messages-update_status_batch (i ∷ ids) now db = refl

unread-update_status_batch :
    (session : String) (now : ℕ) (db : Db)
    → unread session (update_status_batch (ids_of (unread session db)) read now db) ≡ []
unfolding find_inbound_by_session_id_and_status order_asc
unread-update_status_batch session now db =
    let p = is_inbound_not session read in
    let ids = ids_of (unread session db) in
    rw
      (
        messages-update_status_batch ids now db,
        select-map_eq_nil p (with_status_in ids read now) ids (listed_read session ids now)
            (other_kept session ids now) db.messages
            (λ j c.
              contains-order_asc (λ m. m.created_at) (λ m. m.id) j (select p db.messages) ∙ c),
      )
      refl

db-send_read :
    (target : String) (ms : List Message) (id : String) (now : ℕ) (w : World)
    → (send_read target ms id now w).1.db ≡ update_status_batch (ids_of ms) read now w.db
unfolding send_read update_status_batch
db-send_read target [] id now w = refl
db-send_read target (m ∷ ms) id now w = ground arith

-- What is sent about `ms`: nothing, or one receipt that lists them.
abbrev pub receipts : String → List Message → String → ℕ → List Sent
receipts target [] id now = []
receipts target (m ∷ ms) id now =
    record { dests = target ∷ []; packet = message (read_receipt (m ∷ ms) id now) } ∷ []

sent-send_read :
    (target : String) (ms : List Message) (id : String) (now : ℕ) (w : World) (own : String)
    → w.account ≡ some own
    → (send_read target ms id now w).1.sent ≡ w.sent ++ receipts target ms id now
unfolding send_read update_status_batch
sent-send_read target [] id now w own a = sym (append-nil w.sent)
sent-send_read target (m ∷ ms) id now w own a = ground arith

contains-select-none :
    (p : Message → Bool) (j : String) (ms : List Message)
    → find message_key j ms ≡ none
    → contains (ids_of (select p ms)) j ≡ false
unfolding find select contains
contains-select-none p j [] h = refl
contains-select-none p j (m ∷ ms) h = ground (arith, h, contains-select-none p j ms)

contains-select :
    (p : Message → Bool) (j : String) (ms : List Message) (m : Message)
    → IsKeyed message_key ms
    → find message_key j ms ≡ some m
    → contains (ids_of (select p ms)) j ≡ p m
unfolding find select contains
contains-select p j [] m v h = cc
contains-select p j (x ∷ ms) m v h =
    ground (arith, h, contains-select p j ms m v.1, contains-select-none p j ms, eq_iff x.id j)

find-map :
    (f : Message → Message) (j : String) (ms : List Message)
    → ((m : Message) → (f m).id ≡ m.id)
    → find message_key j (map f ms) ≡ Option.map f (find message_key j ms)
unfolding find
find-map f j [] same = refl
find-map f j (m ∷ ms) same = ground (arith, same m, find-map f j ms same)

-- A message of the session after the user has read it.
abbrev pub after_reading : String → ℕ → Message → Message
after_reading session now m =
    if is_unread session m then record m { status = read; updated_at = now } else m

find-read :
    (session j : String) (now : ℕ) (db : Db)
    → IsKeyed message_key db.messages
    → find_by_id j (update_status_batch (ids_of (unread session db)) read now db)
      ≡ Option.map (after_reading session now) (find_by_id j db)
unfolding find_by_id
find-read session j now db v =
    let p = is_unread session in
    let ids = ids_of (unread session db) in
    ap (find message_key j) (messages-update_status_batch ids now db)
    ∙ find-map (with_status_in ids read now) j db.messages (λ m. ground arith)
    ∙ elim (Option-cases (find message_key j db.messages)) [
      | inl e ↦ ground (arith, e)
      | inr (m, e) ↦ ground (
        arith,
        e,
        find-key message_key j db.messages m e,
        contains-order_asc (λ m. m.created_at) (λ m. m.id) j (select p db.messages),
        contains-select p j db.messages m v e,
      )
    ]

-- When the user reads a direct session, exactly the inbound messages of it that were not read become
-- `read`, every other message is as it was, and a connected client tells the other side once, listing
-- exactly those that were not read before, oldest first; when there were none, nothing is sent. No two
-- messages have the same id.
pub mark_session_read_lem :
    (session target id own j : String) (now : ℕ) (w : World)
    → after_prefix "direct:" session ≡ some target
    → w.account ≡ some own
    → IsKeyed message_key w.db.messages
    → (find_by_id j (mark_session_read session id now w).1.db
        ≡ Option.map (after_reading session now) (find_by_id j w.db))
      × (unread session (mark_session_read session id now w).1.db ≡ [])
      × ((mark_session_read session id now w).1.sent
          ≡ w.sent ++ receipts target (unread session w.db) id now)
unfolding mark_session_read find_inbound_by_session_id_and_status Sessions.reset_unread
    Sessions.set_row find_by_id
mark_session_read_lem session target id own j now w d a v = (
  rw d (
      ap (find_by_id j) (db-send_read target (unread session w.db) id now _)
      ∙ find-read session j now (Sessions.reset_unread session now w.db) v),
  rw d (
      ap (unread session) (db-send_read target (unread session w.db) id now _)
      ∙ unread-update_status_batch session now (Sessions.reset_unread session now w.db)),
  rw d (sent-send_read target (unread session w.db) id now _ own a),
)
