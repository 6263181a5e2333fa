-- ===== src/Chat/Receipts.antt =====
-- chat-service.ts: the delivery and read receipts of the other side, which move the status of the
-- outbound messages.
pub mod Effect
use dchat_desktop.Common.{ℕ, String, Bool, not, ◌&&◌, ◌||◌, List}
use dchat_desktop.Types.{Message, Status, sending, sent, delivered, read, failed}
use dchat_desktop.Store.Messages.{status_eq}
use dchat_desktop.Store.Messages
use dchat_desktop.Exec.{
  Exec, ◌>>=◌, ◌>>◌, gets, modify, push, when, with_some, for_each, on_message,
}

abbrev pub awaits_receipt : Message → Bool
awaits_receipt m = m.is_outbound && (status_eq m.status sending || status_eq m.status sent)

abbrev pub awaits_read : Message → Bool
awaits_read m = m.is_outbound && not (status_eq m.status read) && not (status_eq m.status failed)

-- The shape of both branches: look the message up, test it, write the status and show it.
advance : (Message → Bool) → Status → ℕ → String → Exec (Unit {0})
unfolding ◌>>=◌ when with_some
advance test status now id = do
  original ← gets (Messages.find_by_id id)
  with_some original λ m. when (test m) do
    modify (Messages.update_status m.id status now)
    push (on_message (record m { status = status }))

-- The branch of `handleIncomingMessage` for the content type "receipt".
unfoldable pub handle_receipt : String → ℕ → Exec (Unit {0})
unfolding advance
handle_receipt target_id now = advance awaits_receipt delivered now target_id

-- The branch for the content type "read".
unfoldable pub handle_read : List String → ℕ → Exec (Unit {0})
unfolding advance for_each
handle_read ids now = for_each ids (advance awaits_read read now)
