-- ===== src/Chat/Sessions/Migration.antt =====
-- The migration of a legacy session inside `getOrCreateSession`: the messages are moved to the new id
-- before a session with that id exists, which the foreign key forbids.
use dchat_desktop.Common.{
  ℕ, String, false, none, some, [], ◌≡◌, ◌≢◌, arith, string_eq, ◌==◌, select,
}
use dchat_desktop.Types.{Session}
use dchat_desktop.Store.Db.{Db}
use dchat_desktop.Store.Messages.{in_session, update_session_id}
use dchat_desktop.Store.Sessions
use dchat_desktop.Exec.{World, err, constraint, next, committed}
use dchat_desktop.Chat.Sessions.{direct_id, get_or_create_session, migrate, or_legacy}

-- A session of this counterparty under an old id, that holds messages, and none under the new id.
pub record IsLegacy (target : String) (w : World) : Type 0 where
  pub session : Session
  pub missing : Sessions.find_by_id (direct_id target) w.db ≡ none
  pub found : Sessions.find_by_target_address target w.db ≡ some session
  pub renamed : (session.id == direct_id target) ≡ false
  pub filled : select (in_session session.id) w.db.messages ≢ []

update_session_id-refused :
    (old target : String) (now : ℕ) (db : Db)
    → Sessions.find_by_id target db ≡ none
    → select (in_session old) db.messages ≢ []
    → update_session_id old target now db ≡ none
unfolding update_session_id Sessions.find_by_id
update_session_id-refused old target now db missing filled = ground arith

-- With such a session the lookup always throws, and changes nothing.
pub get_or_create_session_legacy :
    (target : String) (now : ℕ) (w : World)
    → IsLegacy target w
    → get_or_create_session target now w ≡ (err constraint, w)
unfolding get_or_create_session migrate
get_or_create_session_legacy target now w l = rw (
  l.missing,
  or_legacy,
  next,
  l.found,
  migrate,
  l.renamed,
  update_session_id-refused l.session.id (direct_id target) now w.db l.missing l.filled,
  committed,
)
