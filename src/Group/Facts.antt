-- ===== src/Group/Facts.antt =====
-- private-group-service.ts: facts about the groups and their members, which the sessions, the messages
-- and what is sent do not touch.
pub mod Removal
pub mod Joined
pub mod Lists
pub mod Syncing
use dchat_desktop.Common.{ℕ, String, Option, none, some, List, [], ◌∷◌, ◌≡◌, refl, arith}
use dchat_desktop.Types.{Message, MessageData, Session}
use dchat_desktop.Types.Group.{PrivateGroup, Member}
use dchat_desktop.Types.Wire.{Packet}
use dchat_desktop.Store.Db.{Db}
use dchat_desktop.Store.Messages
use dchat_desktop.Store.Sessions
use dchat_desktop.Group.Session.{get_or_create_group_session, push_session, push_group, announce}
use dchat_desktop.Group.Sync.{sync_members_to_all, sync_to, send_option_response, send_options}
use dchat_desktop.Group.Welcome.{announce_join, tell_others}
use dchat_desktop.Exec.{
  Exec, World, modify, attempt, Keeps, IsQuiet, Keeps-modify, Keeps-attempt, keeps_rules,
}

pub record About (R : List PrivateGroup → List Member → Type 0) (w : World) : Type 0 where
  pub tables : R w.db.groups w.db.members

insert-tables :
    (m : Message) (db db' : Db)
    → Messages.insert m db ≡ some db'
    → (db'.groups ≡ db.groups) × (db'.members ≡ db.members)
unfolding Messages.insert
insert-tables m db db' h = ground arith

module _ (R : List PrivateGroup → List Member → Type 0) where
  pub About-IsQuiet : IsQuiet (About R)
  About-IsQuiet = record {
    sending = λ w s h. record { tables = h.tables };
    pushing = λ w p h. record { tables = h.tables };
    starting = λ w t h. record { tables = h.tables };
  }

  pub upsert_session-About : (s : Session) → Keeps (About R) (modify (Sessions.upsert s))
  unfolding Sessions.upsert
  upsert_session-About s = Keeps-modify _ (λ w v. record { tables = v.tables })

  pub update_last_message-About :
      (id content : String) (at now : ℕ)
      → Keeps (About R) (modify (Sessions.update_last_message id content at now))
  unfolding Sessions.update_last_message Sessions.set_row
  update_last_message-About id content at now = Keeps-modify _ (λ w v. record { tables = v.tables })

  pub increment_unread-About :
      (id : String) (now : ℕ) → Keeps (About R) (modify (Sessions.increment_unread id now))
  unfolding Sessions.increment_unread Sessions.set_row
  increment_unread-About id now = Keeps-modify _ (λ w v. record { tables = v.tables })

  pub insert-About : (m : Message) → Keeps (About R) (attempt (Messages.insert m))
  insert-About m = Keeps-attempt _ (λ w db v h.
      let same = insert-tables m w.db db h in record { tables = rw (same.0, same.1) v.tables })

  pub ruleset table_rules = (
    keeps_rules, About-IsQuiet, upsert_session-About, update_last_message-About,
    increment_unread-About, insert-About,
  )

  pub get_or_create_group_session-About :
      (group_id name : String) (now : ℕ)
      → Keeps (About R) (get_or_create_group_session group_id name now)
  unfolding get_or_create_group_session
  get_or_create_group_session-About group_id name now = search table_rules depth 10

  push_session-About : (group_id : String) → Keeps (About R) (push_session group_id)
  unfolding push_session
  push_session-About group_id = search table_rules depth 10

  pub push_group-About : (group_id : String) → Keeps (About R) (push_group group_id)
  unfolding push_group
  push_group-About group_id = search table_rules depth 10

  pub announce-About :
      (group_id : String) (m : Message) (preview : String) (now : ℕ)
      → Keeps (About R) (announce group_id m preview now)
  unfolding announce
  announce-About group_id m preview now = search (table_rules, push_session-About) depth 15

  pub announce_join-About :
      (group_id src : String) (d : MessageData) (now : ℕ)
      → Keeps (About R) (announce_join group_id src d now)
  unfolding announce_join
  announce_join-About group_id src d now = search (table_rules, announce-About) depth 15

  sync_to-About :
      (dests : List String) (group_id id : String) (now : ℕ)
      → Keeps (About R) (sync_to dests group_id id now)
  sync_to-About [] group_id id now = search table_rules
  sync_to-About (d ∷ ds) group_id id now = search table_rules depth 10

  pub sync_members_to_all-About :
      (group_id id : String) (now : ℕ) → Keeps (About R) (sync_members_to_all group_id id now)
  unfolding sync_members_to_all
  sync_members_to_all-About group_id id now = search (table_rules, sync_to-About) depth 15

  send_options-About :
      (ds : List String) (packet : Packet) → Keeps (About R) (send_options ds packet)
  unfolding send_options
  send_options-About [] packet = search table_rules
  send_options-About (d ∷ []) packet = search table_rules
  send_options-About (d ∷ e ∷ ds) packet = search table_rules

  pub send_option_response-About :
      (group_id : String) (ds : List String) (id : String) (now : ℕ)
      → Keeps (About R) (send_option_response group_id ds id now)
  unfolding send_option_response
  send_option_response-About group_id [] id now = search table_rules
  send_option_response-About group_id (d ∷ ds) id now =
      search (table_rules, send_options-About) depth 10

  pub tell_others-About :
      (group_id : String) (m : Member) (ds : List String) (uuid : ℕ → String) (now : ℕ)
      → Keeps (About R) (tell_others group_id m ds uuid now)
  unfolding tell_others
  tell_others-About group_id m [] uuid now = search table_rules
  tell_others-About group_id m (d ∷ ds) uuid now =
      search (table_rules, send_option_response-About) depth 15

  -- What the steps after a change of the tables keep.
  pub ruleset about_rules = (
    table_rules, get_or_create_group_session-About, push_group-About, announce-About,
    announce_join-About, sync_members_to_all-About, send_option_response-About, tell_others-About,
  )
