-- ===== src/Chat/Notify.antt =====
-- chat-service.ts: `showNotification`.
use dchat_desktop.Common.{String, Bool, ◌&&◌, not, Option, none, some, ◌==◌, string_eq, false}
use dchat_desktop.Types.{Session}
use dchat_desktop.Store.Sessions
use dchat_desktop.Exec.{Exec, ◌>>=◌, gets, push, notification, when}

-- What the service knows of the window, the active session, and the setting `notifications_muted`.
pub record View : Type 0 where
  pub focused : Bool
  pub active_session : Option String
  pub muted_globally : Bool

abbrev pub is_viewing : View → String → Bool
is_viewing v id = v.focused && is_active v.active_session
  where
    is_active : Option String → Bool
    is_active (some a) = a == id
    is_active none = false

abbrev pub is_muted : Option Session → Bool
is_muted (some s) = s.muted
is_muted none = false

unfoldable pub show_notification : View → String → String → String → Exec (Unit {0})
unfolding ◌>>=◌ when
show_notification view title body session_id = when (not (is_viewing view session_id)) do
  session ← gets (Sessions.find_by_id session_id)
  when (not (is_muted session) && not view.muted_globally) (push (notification title body))
