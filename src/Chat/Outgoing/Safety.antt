-- ===== src/Chat/Outgoing/Safety.antt =====
-- The actions of the user keep the database intact.
use dchat_desktop.Common.{ℕ, String, Bool, Option}
use dchat_desktop.Types.{Message, ContentType}
use dchat_desktop.Store.Db.{IsIntact}
use dchat_desktop.Store.Intact.Rules.{Intact, intact_rules}
use dchat_desktop.Exec.{World, Keeps, keeps_rules}
use dchat_desktop.Chat.Sessions.Keeping.{get_or_create_session-Intact}
use dchat_desktop.Chat.Outgoing.{begin_send, finish_send, mark_session_read}
use dchat_desktop.Chat.Burn.{send_burn_options_to_contact}

begin_send-Intact :
    (to content : String) (t : Option ContentType) (version : Option String) (id : String) (now : ℕ)
    → Keeps Intact (begin_send to content t version id now)
unfolding begin_send
begin_send-Intact to content t version id now =
    search (keeps_rules, intact_rules, get_or_create_session-Intact) depth 30

finish_send-Intact :
    (m : Message) (acknowledged : Bool) (now : ℕ) → Keeps Intact (finish_send m acknowledged now)
unfolding finish_send
finish_send-Intact m acknowledged now = search (keeps_rules, intact_rules) depth 10

mark_session_read-Intact :
    (session id : String) (now : ℕ) → Keeps Intact (mark_session_read session id now)
unfolding mark_session_read
mark_session_read-Intact session id now = search (keeps_rules, intact_rules) depth 20

send_burn_options-Intact :
    (address : String) (seconds at : ℕ) (option_id message_id : String) (now : ℕ)
    → Keeps Intact (send_burn_options_to_contact address seconds at option_id message_id now)
unfolding send_burn_options_to_contact
send_burn_options-Intact address seconds at option_id message_id now =
    search (keeps_rules, intact_rules, get_or_create_session-Intact) depth 30

-- Sending a message, both parts of it, reading a session and sending a burn setting keep the database
-- intact, also where they throw.
pub user_actions-IsIntact :
    (to content : String) (t : Option ContentType) (version : Option String) (id id' : String)
    (m : Message) (acknowledged : Bool) (seconds at now : ℕ) (w : World)
    → IsIntact w.db
    → IsIntact (begin_send to content t version id now w).1.db
      × IsIntact (finish_send m acknowledged now w).1.db
      × IsIntact (mark_session_read to id now w).1.db
      × IsIntact (send_burn_options_to_contact to seconds at id id' now w).1.db
user_actions-IsIntact to content t version id id' m acknowledged seconds at now w v = (
  ((begin_send-Intact to content t version id now).at w (record { db = v })).db,
  ((finish_send-Intact m acknowledged now).at w (record { db = v })).db,
  ((mark_session_read-Intact to id now).at w (record { db = v })).db,
  ((send_burn_options-Intact to seconds at id id' now).at w (record { db = v })).db,
)
