-- ===== src/Chat/Receipts/Effect.antt =====
-- What the receipts do to the status of each message.
use mathlib.Core.Option
use dchat_desktop.Common.{
  ℕ, String, Bool, true, false, not, ◌||◌, ◌&&◌, Option, none, some, List, [], ◌∷◌, ◌≡◌, refl,
  if◌then◌else◌, ◌==◌, string_eq, contains, arith, Option-cases, inl, inr, ◌∙◌, ap, sym,
}
use text.Mathlib.TextEquality.{eq_iff}
use dchat_desktop.Types.{Message, Status, sending, sent, delivered, read, failed}
use dchat_desktop.Table.{find-update, find-key}
use dchat_desktop.Store.Db.{Db, message_key}
use dchat_desktop.Store.Messages.{with_status, status_eq, find_by_id, update_status, set_row}
use dchat_desktop.Exec.{World, ok, next, with_some}
use dchat_desktop.Chat.Receipts.{awaits_receipt, awaits_read, handle_receipt, advance, handle_read}

pub find-update_status :
    (id j : String) (s : Status) (now : ℕ) (db : Db)
    → find_by_id j (update_status id s now db)
      ≡ (if id == j then Option.map (with_status s now) (find_by_id j db) else find_by_id j db)
unfolding find_by_id update_status set_row
find-update_status id j s now db =
    find-update message_key id j (with_status s now) db.messages (λ r. refl)

pub find_by_id-id : (id : String) (db : Db) (m : Message) → find_by_id id db ≡ some m → m.id ≡ id
unfolding find_by_id
find_by_id-id id db m h = find-key message_key id db.messages m h

abbrev advanced : (Message → Bool) → Status → ℕ → String → Message → Message
advanced test s now id m = if m.id == id && test m then with_status s now m else m

find-advance :
    (test : Message → Bool) (s : Status) (now : ℕ) (id j : String) (w : World)
    → find_by_id j (advance test s now id w).1.db
      ≡ Option.map (advanced test s now id) (find_by_id j w.db)
unfolding advance
find-advance test s now id j w = elim (Option-cases (find_by_id id w.db)) [
  | inl e ↦ elim (Option-cases (find_by_id j w.db)) [
    | inl f ↦ rw (e, advance, with_some) (rw f)
    | inr (x, f) ↦
        rw (e, advance, with_some) (ground (arith, find_by_id-id j w.db x f, eq_iff x.id id))
  ]
  | inr (m, e) ↦ elim (Option-cases (find_by_id j w.db)) [
    | inl f ↦ rw (e, advance, with_some) (ground (arith, find-update_status m.id j s now w.db))
    | inr (x, f) ↦
        rw (e, advance, with_some)
          (ground (
            arith,
            find-update_status m.id j s now w.db,
            find_by_id-id j w.db x f,
            find_by_id-id id w.db m e,
            eq_iff x.id id,
            eq_iff m.id j,
          ))
  ]
]

-- The statuses that a delivery receipt, and that a read receipt may replace.
abbrev pub is_pending : Status → Bool
is_pending sending = true
is_pending sent = true
is_pending _ = false

abbrev pub is_unread : Status → Bool
is_unread read = false
is_unread failed = false
is_unread _ = true

is_pending-status_eq : (s : Status) → (status_eq s sending || status_eq s sent) ≡ is_pending s
is_pending-status_eq sending = refl
is_pending-status_eq sent = refl
is_pending-status_eq delivered = refl
is_pending-status_eq read = refl
is_pending-status_eq failed = refl

is_unread-status_eq :
    (s : Status) → (not (status_eq s read) && not (status_eq s failed)) ≡ is_unread s
is_unread-status_eq sending = refl
is_unread-status_eq sent = refl
is_unread-status_eq delivered = refl
is_unread-status_eq read = refl
is_unread-status_eq failed = refl

abbrev pub after_receipt : String → ℕ → Message → Message
after_receipt id now m =
    if m.id == id && m.is_outbound && is_pending m.status then with_status delivered now m else m

after_receipt-map :
    (id : String) (now : ℕ) (o : Option Message)
    → Option.map (advanced awaits_receipt delivered now id) o ≡ Option.map (after_receipt id now) o
after_receipt-map id now none = refl
after_receipt-map id now (some m) = ground (arith, is_pending-status_eq m.status)

-- A delivery receipt for `id` changes one message at most: the one with that id, and only if it is
-- outbound and still `sending` or `sent`; it becomes `delivered`. Every other message is as it was.
pub find-handle_receipt :
    (id j : String) (now : ℕ) (w : World)
    → find_by_id j (handle_receipt id now w).1.db
      ≡ Option.map (after_receipt id now) (find_by_id j w.db)
unfolding handle_receipt
find-handle_receipt id j now w =
    find-advance awaits_receipt delivered now id j w ∙ after_receipt-map id now (find_by_id j w.db)

advance-ok :
    (test : Message → Bool) (s : Status) (now : ℕ) (id : String) (w : World)
    → (advance test s now id w).0 ≡ ok tt
unfolding advance
advance-ok test s now id w = elim (Option-cases (find_by_id id w.db)) [
  | inl e ↦ rw (e, advance, with_some)
  | inr (m, e) ↦ rw (e, advance, with_some) (ground arith)
]

abbrev pub after_read : List String → ℕ → Message → Message
after_read ids now m =
    if contains ids m.id && m.is_outbound && is_unread m.status then with_status read now m else m

after_read-cons :
    (id : String) (ids : List String) (now : ℕ) (m : Message)
    → after_read ids now (advanced awaits_read read now id m) ≡ after_read (id ∷ ids) now m
unfolding contains
after_read-cons id ids now m =
    ground (arith, eq_iff m.id id, eq_iff id m.id, is_unread-status_eq m.status)

after_read-nil : (now : ℕ) (o : Option Message) → Option.map (after_read [] now) o ≡ o
unfolding contains
after_read-nil now none = refl
after_read-nil now (some m) = refl

after_read-map :
    (id : String) (ids : List String) (now : ℕ) (o : Option Message)
    → Option.map (after_read ids now) (Option.map (advanced awaits_read read now id) o)
      ≡ Option.map (after_read (id ∷ ids) now) o
after_read-map id ids now none = refl
after_read-map id ids now (some m) = ap some (after_read-cons id ids now m)

-- A read receipt marks as `read` exactly the outbound messages that it lists and that did not fail,
-- however often it lists one; every other message is as it was.
pub find-handle_read :
    (ids : List String) (j : String) (now : ℕ) (w : World)
    → find_by_id j (handle_read ids now w).1.db
      ≡ Option.map (after_read ids now) (find_by_id j w.db)
unfolding handle_read
find-handle_read [] j now w = sym (after_read-nil now (find_by_id j w.db))
find-handle_read (id ∷ ids) j now w =
    let w' = (advance awaits_read read now id w).1 in
    rw (advance-ok awaits_read read now id w, next)
      (find-handle_read ids j now w'
        ∙ ap (Option.map (after_read ids now)) (find-advance awaits_read read now id j w)
        ∙ after_read-map id ids now (find_by_id j w.db))
