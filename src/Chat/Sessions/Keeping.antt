-- ===== src/Chat/Sessions/Keeping.antt =====
-- Finding or creating the session of a counterparty keeps whatever its three statements keep.
use dchat_desktop.Common.{ℕ, String, Option, none, some}
use dchat_desktop.Types.{Session}
use dchat_desktop.Store.Messages
use dchat_desktop.Store.Sessions
use dchat_desktop.Store.Intact.Rules.{
  Intact, update_session_id-Intact, delete_session-Intact, upsert_session-Intact,
}
use dchat_desktop.Exec.{World, Keeps, keeps_rules, modify, attempt}
use dchat_desktop.Chat.Sessions.{migrate, or_legacy, or_create, get_or_create_session}

module _ {P : World → Type 0}
    (move : (old new : String) (now : ℕ)
      → Keeps P (attempt (Messages.update_session_id old new now)))
    (drop : (id : String) → Keeps P (modify (Sessions.delete_by_id id)))
    (put : (s : Session) → Keeps P (modify (Sessions.upsert s))) (target : String) (now : ℕ) where
  migrate-Keeps : (o : Option Session) → Keeps P (migrate target now o)
  unfolding migrate
  migrate-Keeps none = search keeps_rules
  migrate-Keeps (some s) = search (keeps_rules, move, drop) depth 10

  or_legacy-Keeps : (o : Option Session) → Keeps P (or_legacy target now o)
  unfolding or_legacy
  or_legacy-Keeps none = search (keeps_rules, migrate-Keeps)
  or_legacy-Keeps (some s) = search keeps_rules

  or_create-Keeps : (o : Option Session) → Keeps P (or_create target now o)
  unfolding or_create
  or_create-Keeps none = search (keeps_rules, put)
  or_create-Keeps (some s) = search keeps_rules

  pub get_or_create_session-Keeps : Keeps P (get_or_create_session target now)
  unfolding get_or_create_session
  get_or_create_session-Keeps = search (keeps_rules, or_legacy-Keeps, or_create-Keeps)

pub get_or_create_session-Intact :
    (target : String) (now : ℕ) → Keeps Intact (get_or_create_session target now)
get_or_create_session-Intact target now =
    get_or_create_session-Keeps update_session_id-Intact delete_session-Intact upsert_session-Intact
      target now
