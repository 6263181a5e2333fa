-- ===== src/Topic/Facts/Stored.antt =====
-- topic-service.ts: what a message to a topic leaves: `handleIncomingTopicMessage`.
use dchat_desktop.Common.{
  ℕ, String, Bool, true, false, Option, none, some, [], ◌∷◌, ◌++◌, ◌≡◌, refl, ap, string_eq, ◌==◌,
  arith, Bool-cases, Option-cases, inl, inr,
}
use dchat_desktop.Common.Text.{truthy, or_empty}
use dchat_desktop.Common.Text
use text.Mathlib.TextEquality.{eq_iff}
use dchat_desktop.Types.{Message, MessageData}
use dchat_desktop.Table.{find-update, find-append, insert, find-upsert}
use dchat_desktop.Store.Db.{Db, is_some, message_key, session_key}
use dchat_desktop.Store.Messages
use dchat_desktop.Store.Sessions
use dchat_desktop.Store.Contacts
use dchat_desktop.Chat.Notify.{View, show_notification}
use dchat_desktop.Group.Session.{sender_name}
use dchat_desktop.Group.Messages.{Media}
use dchat_desktop.Topic.Session.{
  topic_session, get_or_create_topic_session, push_topic_session, new_topic_session,
}
use dchat_desktop.Topic.Messages.{
  handle_topic_message, store_topic_message, show_topic_message, fetch_topic_media, topic_inbound,
}
use dchat_desktop.Exec.{
  World, ok, IsQuiet, modify, attempt, pure, when, with_some, Keeps, Keeps-modify, keeps_rules,
  Reaches, Reaches-attempt, reach_rules, holds_after,
}

abbrev is_in : String → Option Message → Bool
is_in session none = false
is_in session (some m) = m.session_id == session

-- A message with this id is stored in this session.
pub record Filed (id session : String) (w : World) : Type 0 where
  pub filed : is_in session (Messages.find_by_id id w.db) ≡ true

module _ (id session : String) where
  Filed-IsQuiet : IsQuiet (Filed id session)
  Filed-IsQuiet = record {
    sending = λ w s h. record { filed = h.filed };
    pushing = λ w s h. record { filed = h.filed };
    starting = λ w s h. record { filed = h.filed };
  }

  update_local_file_path-Filed :
      (j path : String) (now : ℕ)
      → Keeps (Filed id session) (modify (Messages.update_local_file_path j path now))
  unfolding Messages.update_local_file_path Messages.set_row Messages.find_by_id
  update_local_file_path-Filed j path now = Keeps-modify _ λ w h. record {
    filed = ground (
      arith,
      h.filed,
      find-update message_key j id (λ m. record m { local_file_path = some path; updated_at = now })
          w.db.messages (λ r. refl),
    );
  }

  update_last_message-Filed :
      (j content : String) (at now : ℕ)
      → Keeps (Filed id session) (modify (Sessions.update_last_message j content at now))
  unfolding Sessions.update_last_message Sessions.set_row Messages.find_by_id
  update_last_message-Filed j content at now = Keeps-modify _ λ w h. record { filed = h.filed }

  increment_unread-Filed :
      (j : String) (now : ℕ) → Keeps (Filed id session) (modify (Sessions.increment_unread j now))
  unfolding Sessions.increment_unread Sessions.set_row Messages.find_by_id
  increment_unread-Filed j now = Keeps-modify _ λ w h. record { filed = h.filed }

  ruleset filed_rules = (
    keeps_rules, Filed-IsQuiet, update_local_file_path-Filed, update_last_message-Filed,
    increment_unread-Filed,
  )

  push_topic_session-Filed : (name : String) → Keeps (Filed id session) (push_topic_session name)
  unfolding push_topic_session
  push_topic_session-Filed name = search filed_rules depth 10

  show_notification-Filed :
      (view : View) (title body s : String)
      → Keeps (Filed id session) (show_notification view title body s)
  unfolding show_notification
  show_notification-Filed view title body s = search filed_rules depth 10

  fetch_topic_media-Filed :
      (media : Media) (d : MessageData) (m : Message) (now : ℕ)
      → Keeps (Filed id session) (fetch_topic_media media d m now)
  unfolding fetch_topic_media
  fetch_topic_media-Filed media d m now = search filed_rules depth 20

  show_topic_message-Filed :
      (media : Media) (name by : String) (d : MessageData) (m : Message) (now : ℕ)
      → Keeps (Filed id session) (show_topic_message media name by d m now)
  unfolding show_topic_message
  show_topic_message-Filed media name by d m now =
      search
        (filed_rules, push_topic_session-Filed, show_notification-Filed, fetch_topic_media-Filed)
        depth 20

insert-Filed : (m : Message) → Reaches (Filed m.id m.session_id) (attempt (Messages.insert m))
unfolding Messages.insert Messages.find_by_id Messages.row_of insert
insert-Filed m = Reaches-attempt _ λ w db e. record {
  filed = ground (
    arith,
    find-append message_key m.id w.db.messages (Messages.row_of m),
    eq_iff m.id m.id,
    eq_iff m.session_id m.session_id,
  );
}

store_topic_message-Filed :
    (media : Media) (name src : String) (d : MessageData) (now : ℕ)
    → Reaches (Filed d.id (topic_session name)) (store_topic_message media name src d now)
unfolding store_topic_message
store_topic_message-Filed media name src d now =
    let shown = show_topic_message-Filed d.id (topic_session name) media name in
    search (reach_rules, insert-Filed (topic_inbound name src d now), shown) depth 10

-- The session is there, whether it was before or not.
with_session :
    (name : String) (now : ℕ) (w : World)
    → let r = get_or_create_topic_session name now w in
      (r.0 ≡ ok tt)
      × (r.1.db.messages ≡ w.db.messages)
      × (is_some (Sessions.find_by_id (topic_session name) r.1.db) ≡ true)
unfolding get_or_create_topic_session when pure modify Sessions.upsert Sessions.find_by_id
with_session name now w =
    elim (Bool-cases (is_some (Sessions.find_by_id (topic_session name) w.db))) [
      | inl e ↦ rw e (refl, refl, e)
      | inr e ↦ rw e (
        refl,
        refl,
        ground (
          arith,
          find-upsert session_key Sessions.merge (Sessions.row_of (new_topic_session name now))
              (topic_session name) w.db.sessions (λ x y. refl),
          eq_iff (topic_session name) (topic_session name),
        ),
      )
    ]

insert-new :
    (m : Message) (db : Db)
    → is_some (Sessions.find_by_id m.session_id db) ≡ true
    → Messages.find_by_id m.id db ≡ none
    → Messages.insert m db ≡ some (record db { messages = db.messages ++ Messages.row_of m ∷ [] })
unfolding Messages.insert Messages.row_of Messages.find_by_id Sessions.find_by_id insert
insert-new m db s e = ground (arith, s, e)

attempt-ok :
    (f : Db → Option Db) (db : Db) (w : World)
    → f w.db ≡ some db
    → attempt f w ≡ (ok tt, record w { db = db })
unfolding attempt
attempt-ok f db w e = rw e refl

insert-files :
    (m : Message) (w : World)
    → is_some (Sessions.find_by_id m.session_id w.db) ≡ true
    → Messages.find_by_id m.id w.db ≡ none
    → Filed m.id m.session_id (attempt (Messages.insert m) w).1
insert-files m w s e =
    (insert-Filed m).at w tt (ap (λ r. r.0) (attempt-ok _ _ w (insert-new m w.db s e)))

module _ (media : Media) (src name own : String) (d : MessageData) (now : ℕ) (w : World) where
  store_topic_message-files :
      Messages.find_by_id d.id w.db ≡ none
      → Filed d.id (topic_session name) (store_topic_message media name src d now w).1
  unfolding store_topic_message Messages.find_by_id
  store_topic_message-files e =
      let s = with_session name now w in
      let w1 = (get_or_create_topic_session name now w).1 in
      rw s.0 (
        holds_after (attempt (Messages.insert (topic_inbound name src d now)))
          (λ _.
            show_topic_message media name
              (Text.◌++◌ (sender_name (Contacts.find_by_address src w1.db) src) ": ") d
              (topic_inbound name src d now) now)
          w1 (insert-files (topic_inbound name src d now) w1 s.2 (rw s.1 e))
          (λ _. show_topic_message-Filed d.id (topic_session name) media name _ d _ now))

Filed-message :
    (id session : String) (w : World)
    → Filed id session w
    → (m : Message) × (Messages.find_by_id id w.db ≡ some m) × (m.session_id ≡ session)
Filed-message id session w f = elim (Option-cases (Messages.find_by_id id w.db)) [
  | inl e ↦ let h = rw e at f.filed in cc
  | inr (m, e) ↦ (m, e, (eq_iff m.session_id session).0 (rw e at f.filed))
]

module _ (media : Media) (src name : String) (d : MessageData) (now : ℕ) (w : World)
    (named : d.topic ≡ some name) (valid : truthy d.topic ≡ true) where
  ignored :
      is_some (Messages.find_by_id d.id w.db) ≡ true
      → handle_topic_message media src d now w ≡ (ok tt, w)
  unfolding handle_topic_message
  ignored k = ground (arith, k)

  offline : w.account ≡ none → handle_topic_message media src d now w ≡ (ok tt, w)
  unfolding handle_topic_message
  offline h = ground (arith, h)

  stored_anew :
      (own : String)
      → is_some (Messages.find_by_id d.id w.db) ≡ false
      → w.account ≡ some own
      → handle_topic_message media src d now w ≡ store_topic_message media name src d now w
  unfolding handle_topic_message
  stored_anew own k h = rw (valid, named, h, k, when, with_some)

  -- A connected client stores a new message of a topic in the session of that topic, also where it has
  -- no such topic and no such session.
  pub handle_topic_message-files :
      (own : String)
      → w.account ≡ some own
      → Messages.find_by_id d.id w.db ≡ none
      → let after = (handle_topic_message media src d now w).1 in
        (m : Message) × (Messages.find_by_id d.id after.db ≡ some m)
        × (m.session_id ≡ topic_session name)
  handle_topic_message-files own h e =
      Filed-message d.id (topic_session name) (handle_topic_message media src d now w).1 (
        rw (stored_anew own (ground (arith, e)) h)
          (store_topic_message-files media src name own d now w e))

-- A message for a topic is stored once: when the handler has returned, a second copy of the message, at
-- any time, changes nothing.
pub handle_topic_message_idempotent :
    (media : Media) (src name : String) (d : MessageData) (now now' : ℕ) (w : World)
    → d.topic ≡ some name
    → truthy d.topic ≡ true
    → (handle_topic_message media src d now w).0 ≡ ok tt
    → handle_topic_message media src d now' (handle_topic_message media src d now w).1
      ≡ (ok tt, (handle_topic_message media src d now w).1)
handle_topic_message_idempotent media src name d now now' w named valid e =
    elim (Bool-cases (is_some (Messages.find_by_id d.id w.db))) [
      | inl old ↦
          rw (ignored media src name d now w named valid old)
            (ignored media src name d now' w named valid old)
      | inr new ↦ elim (Option-cases w.account) [
        | inl gone ↦
            rw (offline media src name d now w named valid gone)
              (offline media src name d now' w named valid gone)
        | inr (own, there) ↦
            let same = stored_anew media src name d now w named valid own new there in
            let after = (store_topic_message media name src d now w).1 in
            let (m, found, place) =
              Filed-message d.id (topic_session name) after
                ((store_topic_message-Filed media name src d now).at w tt (rw same at e)) in
            rw same (ignored media src name d now' after named valid (ground (arith, found)))
      ]
    ]
