-- ===== src/Chat/Outgoing/Lifecycle.antt =====
-- The status of a message that is being sent, when receipts arrive before the end of the `await`.
use mathlib.Core.Option
use dchat_desktop.Common.{ℕ, String, Option, some, ◌≡◌, arith, string_eq, ap, ◌∙◌, true}
use text.Mathlib.TextEquality.{eq_iff}
use dchat_desktop.Types.{Message, Status, sending, sent, delivered}
use dchat_desktop.Store.Messages.{find_by_id, with_status}
use dchat_desktop.Exec.{World}
use dchat_desktop.Chat.Receipts.{handle_receipt}
use dchat_desktop.Chat.Receipts.Effect.{find-handle_receipt, find-update_status, find_by_id-id}
use dchat_desktop.Chat.Outgoing.{finish_send}

abbrev pub status_of : String → World → Option Status
status_of id w = Option.map (λ m. m.status) (find_by_id id w.db)

find-finish_send :
    (m : Message) (now : ℕ) (w : World)
    → find_by_id m.id (finish_send m true now w).1.db
      ≡ Option.map (with_status sent now) (find_by_id m.id w.db)
unfolding finish_send
find-finish_send m now w =
    ground (arith, find-update_status m.id m.id sent now w.db, eq_iff m.id m.id)

-- The end of the `await` in `sendMessage` and the delivery receipt for that message do not commute: in
-- this order the message is `delivered`, but a receipt that comes first is lost, and the message falls
-- back to `sent`.
pub finish_send_downgrades :
    (m x : Message) (now later : ℕ) (w : World)
    → find_by_id m.id w.db ≡ some x
    → x.is_outbound ≡ true
    → x.status ≡ sending
    → (status_of m.id (handle_receipt m.id later (finish_send m true now w).1).1 ≡ some delivered)
      × (status_of m.id (finish_send m true later (handle_receipt m.id now w).1).1 ≡ some sent)
finish_send_downgrades m x now later w e o s = (
  ap (Option.map (λ y. y.status)) (find-handle_receipt m.id m.id later (finish_send m true now w).1)
      ∙ ground (arith, find-finish_send m now w, find_by_id-id m.id w.db x e, eq_iff x.id m.id),
  ap (Option.map (λ y. y.status)) (find-finish_send m later (handle_receipt m.id now w).1)
      ∙ ground (arith, find-handle_receipt m.id m.id now w),
)
