-- ===== src/Tests.antt =====
-- The theorems on messages at concrete inputs.
pub mod Fixtures
pub mod Calls
pub mod Outgoing
pub mod Downloads
pub mod Members
pub mod Groups
pub mod Profiles
pub mod Topics
use mathlib.Core.Option
use dchat_desktop.Common.{Option, none, some, [], ◌∷◌, ◌≡◌, refl, arith, select}
use dchat_desktop.Types.{Message}
use dchat_desktop.Table.{find, update}
use dchat_desktop.Store.Db.{IsIntact}
use dchat_desktop.Store.Messages
use dchat_desktop.Store.Sessions
use dchat_desktop.Store.Contacts
use dchat_desktop.Exec.{World, ok, err, constraint}
use dchat_desktop.Chat.Receipts.{handle_receipt, handle_read}
use dchat_desktop.Chat.Receipts.Effect.{
  after_receipt, after_read, find-handle_receipt, find-handle_read,
}
use dchat_desktop.Chat.Burn.{handle_contact_options, burn_round}
use dchat_desktop.Chat.Burn.Sweep.{after_round, find-burn_round, find_expired-burn_round}
use dchat_desktop.Chat.Burn.Options.{
  setting_of, newest, setting, setting-handle_contact_options, handle_contact_options_comm,
}
use dchat_desktop.Chat.Sessions.{get_or_create_session}
use dchat_desktop.Chat.Sessions.Migration.{IsLegacy, get_or_create_session_legacy}
use dchat_desktop.Table
use dchat_desktop.Chat.Notify.{show_notification}
use dchat_desktop.Chat.Incoming.Kinds
use dchat_desktop.Chat.Incoming.Media.{is_blank}
use dchat_desktop.Chat.Incoming.{handle_direct, is_acceptable, deliver, store_inbound, fetch_media}
use dchat_desktop.Chat.Incoming.Dedup.{handle_direct_idempotent}
use dchat_desktop.Chat.Route.{handle_incoming, data_message}
use dchat_desktop.Chat.Route.Safety.{handle_incoming-IsIntact}
use Fixtures.{
  letter, talk, contact_bob, stored, world, world-IsIntact, services, services-Known,
  services-Respects, hello, background_view, focused_view, fresh, burn_setting,
}

handle_direct-ok : (handle_direct services background_view "bob" hello "r1" 70 world).0 ≡ ok tt
unfolding handle_direct is_acceptable is_blank deliver store_inbound fetch_media
    get_or_create_session show_notification Messages.find_by_id Messages.insert Messages.row_of
    Messages.update_delete_at Messages.set_row Messages.update_local_file_path Sessions.find_by_id
    Sessions.update_last_message Sessions.increment_unread Sessions.set_row Contacts.find_by_address
    find update Table.insert Kinds.is_displayable Kinds.is_ipfs Kinds.is_audio
handle_direct-ok = refl

handle_direct_idempotent_example :
    handle_direct services focused_view "bob" hello "r2" 80
      (handle_direct services background_view "bob" hello "r1" 70 world).1
    ≡ (ok tt, (handle_direct services background_view "bob" hello "r1" 70 world).1)
handle_direct_idempotent_example =
    handle_direct_idempotent services "bob" hello (services-Known "m3" hello) background_view
      focused_view "r1" "r2" 70 80 world handle_direct-ok

find-handle_receipt_example :
    Messages.find_by_id "m1" (handle_receipt "m1" 90 world).1.db
    ≡ Option.map (after_receipt "m1" 90) (Messages.find_by_id "m1" world.db)
find-handle_receipt_example = find-handle_receipt "m1" "m1" 90 world

find-handle_read_example :
    Messages.find_by_id "m2" (handle_read ("m2" ∷ "m1" ∷ []) 90 world).1.db
    ≡ Option.map (after_read ("m2" ∷ "m1" ∷ []) 90) (Messages.find_by_id "m2" world.db)
find-handle_read_example = find-handle_read ("m2" ∷ "m1" ∷ []) "m2" 90 world

find-burn_round_example :
    Messages.find_by_id "m2" (burn_round 60 world).1.db
    ≡ Option.map (after_round 60) (Messages.find_by_id "m2" world.db)
find-burn_round_example = find-burn_round 60 "m2" world world-IsIntact

bob_found : Contacts.find_by_address "bob" world.db ≡ some contact_bob
unfolding Contacts.find_by_address find
bob_found = refl

handle_contact_options_comm_example :
    setting_of "bob"
      (handle_contact_options "bob"
        (some (burn_setting 60 30))
        "n2"
        95
        (handle_contact_options "bob" (some (burn_setting 30 20)) "n1" 90 world).1).1
    ≡ setting_of "bob"
        (handle_contact_options "bob"
          (some (burn_setting 30 20))
          "n1"
          90
          (handle_contact_options "bob" (some (burn_setting 60 30)) "n2" 95 world).1).1
handle_contact_options_comm_example =
    handle_contact_options_comm "bob" (burn_setting 30 20) (burn_setting 60 30) "n1" "n2" 90 95
      world contact_bob refl refl (λ e. omega arith) bob_found

abbrev legacy : World
legacy = stored (letter "m1" "nkn.bob" ∷ []) (talk "nkn.bob" ∷ [])

legacy-IsLegacy : IsLegacy "bob" legacy
unfolding find Sessions.find_by_id Sessions.find_by_target_address select
legacy-IsLegacy = record {
  session = talk "nkn.bob";
  missing = refl;
  found = refl;
  renamed = refl;
  filled = λ e. cc;
}

get_or_create_session_legacy_example :
    get_or_create_session "bob" 90 legacy ≡ (err constraint, legacy)
get_or_create_session_legacy_example = get_or_create_session_legacy "bob" 90 legacy legacy-IsLegacy
