-- ===== src/Tests/Outgoing.antt =====
-- The theorems on what the user sends and reads, at concrete inputs.
use mathlib.Core.Option
use dchat_desktop.Common.{some, [], ◌∷◌, ◌++◌, ◌≡◌, refl, true, false}
use dchat_desktop.Types.{Message, Status, sent, delivered}
use dchat_desktop.Store.Messages
use dchat_desktop.Table.{find}
use dchat_desktop.Exec.{World}
use dchat_desktop.Chat.Receipts.{handle_receipt}
use dchat_desktop.Chat.Outgoing.{finish_send, mark_session_read, after_prefix}
use dchat_desktop.Chat.Outgoing.Lifecycle.{status_of, finish_send_downgrades}
use dchat_desktop.Chat.Outgoing.Reading.{after_reading, unread, receipts, mark_session_read_lem}
use dchat_desktop.Tests.Fixtures.{letter, talk, stored}

abbrev pending : Message
pending = record (letter "m1" "direct:bob") { status = Status.sending }

abbrev sending_world : World
sending_world = stored (pending ∷ []) (talk "direct:bob" ∷ [])

pending_found : Messages.find_by_id "m1" sending_world.db ≡ some pending
unfolding Messages.find_by_id find
pending_found = refl

finish_send_downgrades_example :
    (status_of "m1" (handle_receipt "m1" 30 (finish_send pending true 20 sending_world).1).1
      ≡ some delivered)
    × (status_of "m1" (finish_send pending true 30 (handle_receipt "m1" 20 sending_world).1).1
        ≡ some sent)
finish_send_downgrades_example =
    finish_send_downgrades pending pending 20 30 sending_world pending_found refl refl

abbrev received : Message
received = record (letter "m4" "direct:bob") { is_outbound = false; status = delivered }

abbrev received_world : World
received_world = stored (received ∷ letter "m5" "direct:bob" ∷ []) (talk "direct:bob" ∷ [])

bob_session : after_prefix "direct:" "direct:bob" ≡ some "bob"
unfolding after_prefix
bob_session = refl

mark_session_read_lem_example :
    let after = (mark_session_read "direct:bob" "r1" 90 received_world).1 in
    (Messages.find_by_id "m4" after.db
      ≡ Option.map (after_reading "direct:bob" 90) (Messages.find_by_id "m4" received_world.db))
    × (unread "direct:bob" after.db ≡ [])
    × (after.sent ≡ [] ++ receipts "bob" (unread "direct:bob" received_world.db) "r1" 90)
unfolding find
mark_session_read_lem_example =
    mark_session_read_lem "direct:bob" "bob" "r1" "alice" "m4" 90 received_world bob_session refl
      (refl, (refl, tt))
