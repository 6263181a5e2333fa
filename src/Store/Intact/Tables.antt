-- ===== src/Store/Intact/Tables.antt =====
-- Messages and sessions: the tables that the foreign key joins.
use dchat_desktop.Common.{
  ℕ, String, true, none, some, List, [], ◌∷◌, ◌++◌, ◌≡◌, refl, string_eq, pair_eq, arith, map,
  select, subst, Bool-cases, inl, inr, eq_of_some, if◌then◌else◌,
}
use text.Mathlib.TextEquality.{eq_iff}
use dchat_desktop.Types.{Message, Session, Status}
use dchat_desktop.Table.{
  find, update, delete, IsKeyed, find-update, find-append, find-delete, find-upsert, find-key,
  update-IsKeyed, append-IsKeyed, delete-IsKeyed, upsert-IsKeyed, map-IsKeyed, delete_other-IsKeyed,
}
use dchat_desktop.Table
use dchat_desktop.Store.Db.{Db, IsIntact, Refers, message_key, session_key, is_some}
use dchat_desktop.Store.Messages
use dchat_desktop.Store.Sessions

-- Whatever session was there is there still.
abbrev Extends : List Session → List Session → Type 0
Extends ss ss' =
    (id : String)
    → is_some (find session_key id ss) ≡ true
    → is_some (find session_key id ss') ≡ true

Refers-mono :
    (ss ss' : List Session) (ms : List Message) → Extends ss ss' → Refers ss ms → Refers ss' ms
Refers-mono ss ss' [] h r = tt
Refers-mono ss ss' (m ∷ ms) h r = (h m.session_id r.0, Refers-mono ss ss' ms h r.1)

Refers-update :
    (ss : List Session) (id : String) (f : Message → Message) (ms : List Message)
    → ((m : Message) → (f m).session_id ≡ m.session_id)
    → Refers ss ms
    → Refers ss (update message_key id f ms)
unfolding update
Refers-update ss id f [] h r = tt
Refers-update ss id f (m ∷ ms) h r = ground (arith, h m, Refers-update ss id f ms h r.1)

Refers-append :
    (ss : List Session) (ms : List Message) (m : Message)
    → is_some (find session_key m.session_id ss) ≡ true
    → Refers ss ms
    → Refers ss (ms ++ m ∷ [])
Refers-append ss [] m h r = (h, tt)
Refers-append ss (x ∷ ms) m h r = (r.0, Refers-append ss ms m h r.1)

Refers-delete :
    (ss : List Session) (id : String) (ms : List Message)
    → Refers ss ms
    → Refers (delete session_key id ss) (delete (λ m. m.session_id) id ms)
unfolding delete
Refers-delete ss id [] r = tt
Refers-delete ss id (m ∷ ms) r = ground (
  arith,
  Refers-delete ss id ms r.1,
  find-delete session_key id m.session_id ss,
  eq_iff m.session_id id,
  eq_iff id m.session_id,
)

pub set_row-IsIntact :
    (id : String) (f : Message → Message) (db : Db)
    → ((m : Message) → (f m).id ≡ m.id)
    → ((m : Message) → (f m).session_id ≡ m.session_id)
    → IsIntact db
    → IsIntact (Messages.set_row id f db)
unfolding Messages.set_row
set_row-IsIntact id f db h k v = record {
  messages = update-IsKeyed message_key id f db.messages h v.messages;
  sessions = v.sessions;
  contacts = v.contacts;
  groups = v.groups;
  members = v.members;
  topics = v.topics;
  subscribers = v.subscribers;
  discovered = v.discovered;
  refers = Refers-update db.sessions id f db.messages k v.refers;
}

insert-parts :
    (m : Message) (db db' : Db)
    → Messages.insert m db ≡ some db'
    → (is_some (find session_key m.session_id db.sessions) ≡ true)
      × (find message_key m.id db.messages ≡ none)
      × (db' ≡ record db { messages = db.messages ++ Messages.row_of m ∷ [] })
unfolding Messages.insert Messages.row_of Table.insert
insert-parts m db db' e = ground (arith)

pub insert-IsIntact :
    (m : Message) (db db' : Db) → IsIntact db → Messages.insert m db ≡ some db' → IsIntact db'
unfolding Messages.row_of
insert-IsIntact m db db' v e =
    let (there, new, same) = insert-parts m db db' e in
    rw same (record {
      messages = append-IsKeyed message_key (Messages.row_of m) db.messages new v.messages;
      sessions = v.sessions;
      contacts = v.contacts;
      groups = v.groups;
      members = v.members;
      topics = v.topics;
      subscribers = v.subscribers;
      discovered = v.discovered;
      refers = Refers-append db.sessions db.messages (Messages.row_of m) there v.refers;
    })

Refers-map :
    (ss : List Session) (f : Message → Message) (ms : List Message)
    → ((m : Message) → (f m).session_id ≡ m.session_id)
    → Refers ss ms
    → Refers ss (map f ms)
Refers-map ss f [] h r = tt
Refers-map ss f (m ∷ ms) h r = ground (arith, h m, Refers-map ss f ms h r.1)

module _ (db : Db) (v : IsIntact db) where
  with_messages :
      (ms : List Message)
      → IsKeyed message_key ms
      → Refers db.sessions ms
      → IsIntact (record db { messages = ms })
  with_messages ms k r = record {
    messages = k;
    sessions = v.sessions;
    contacts = v.contacts;
    groups = v.groups;
    members = v.members;
    topics = v.topics;
    subscribers = v.subscribers;
    discovered = v.discovered;
    refers = r;
  }

  with_sessions :
      (ss : List Session)
      → IsKeyed session_key ss
      → Extends db.sessions ss
      → IsIntact (record db { sessions = ss })
  with_sessions ss k h = record {
    messages = v.messages;
    sessions = k;
    contacts = v.contacts;
    groups = v.groups;
    members = v.members;
    topics = v.topics;
    subscribers = v.subscribers;
    discovered = v.discovered;
    refers = Refers-mono db.sessions ss db.messages h v.refers;
  }

  Refers-delete_messages :
      (c : String) (ms : List Message)
      → Refers db.sessions ms
      → Refers db.sessions (delete (λ m. m.session_id) c ms)
  unfolding delete
  Refers-delete_messages c [] r = tt
  Refers-delete_messages c (m ∷ ms) r = ground (arith, Refers-delete_messages c ms r.1)

  pub delete_by_session_id-IsIntact :
      (session_id : String) → IsIntact (Messages.delete_by_session_id session_id db)
  unfolding Messages.delete_by_session_id
  delete_by_session_id-IsIntact session_id =
      with_messages _
        (delete_other-IsKeyed message_key (λ m. m.session_id) session_id db.messages v.messages)
        (Refers-delete_messages session_id db.messages v.refers)

  pub session_row-IsIntact :
      (id : String) (f : Session → Session)
      → ((s : Session) → (f s).id ≡ s.id)
      → IsIntact (Sessions.set_row id f db)
  unfolding Sessions.set_row
  session_row-IsIntact id f h =
      with_sessions (update session_key id f db.sessions)
        (update-IsKeyed session_key id f db.sessions h v.sessions)
        (λ j e. ground (arith, find-update session_key id j f db.sessions h))

  pub session_upsert-IsIntact : (s : Session) → IsIntact (Sessions.upsert s db)
  unfolding Sessions.upsert
  session_upsert-IsIntact s =
      with_sessions (Table.upsert session_key Sessions.merge (Sessions.row_of s) db.sessions)
        (upsert-IsKeyed session_key Sessions.merge (Sessions.row_of s) db.sessions (λ x y. refl)
          v.sessions)
        (λ j e. ground (
          arith,
          find-upsert session_key Sessions.merge (Sessions.row_of s) j db.sessions (λ x y. refl),
        ))

  pub session_delete-IsIntact : (id : String) → IsIntact (Sessions.delete_by_id id db)
  unfolding Sessions.delete_by_id
  session_delete-IsIntact id = record {
    messages = delete_other-IsKeyed message_key (λ m. m.session_id) id db.messages v.messages;
    sessions = delete-IsKeyed session_key id db.sessions v.sessions;
    contacts = v.contacts;
    groups = v.groups;
    members = v.members;
    topics = v.topics;
    subscribers = v.subscribers;
    discovered = v.discovered;
    refers = Refers-delete db.sessions id db.messages v.refers;
  }

  Refers-move :
      (old new : String) (now : ℕ) (ms : List Message)
      → is_some (find session_key new db.sessions) ≡ true
      → Refers db.sessions ms
      → Refers db.sessions (map (Messages.move_to old new now) ms)
  Refers-move old new now [] h r = tt
  Refers-move old new now (m ∷ ms) h r = ground (arith, Refers-move old new now ms h r.1)

  pub update_session_id-IsIntact :
      (old new : String) (now : ℕ) (db' : Db)
      → Messages.update_session_id old new now db ≡ some db'
      → IsIntact db'
  unfolding Messages.update_session_id
  update_session_id-IsIntact old new now db' e =
      moved (select (Messages.in_session old) db.messages) e
    where
      moved :
          (xs : List Message)
          → (elim xs [
            | [] ↦ some db
            | _ ↦
                if is_some (find session_key new db.sessions)
                then some (record db { messages = map (Messages.move_to old new now) db.messages })
                else none
          ])
            ≡ some db'
          → IsIntact db'
      moved [] e = subst IsIntact (eq_of_some db db' e) v
      moved (x ∷ xs) e = elim (Bool-cases (is_some (find session_key new db.sessions))) [
        | inl there ↦ subst IsIntact (eq_of_some _ db' (rw there at e)) (
            with_messages _
              (map-IsKeyed message_key (Messages.move_to old new now) db.messages
                (λ r. ground arith) v.messages)
              (Refers-move old new now db.messages there v.refers))
        | inr missing ↦ let stuck = rw missing at e in cc
      ]

  pub status_batch-IsIntact :
      (ids : List String) (s : Status) (now : ℕ)
      → IsIntact (Messages.update_status_batch ids s now db)
  unfolding Messages.update_status_batch
  status_batch-IsIntact [] s now = v
  status_batch-IsIntact (i ∷ ids) s now =
      with_messages (map (Messages.with_status_in (i ∷ ids) s now) db.messages)
        (map-IsKeyed message_key (Messages.with_status_in (i ∷ ids) s now) db.messages
          (λ r. ground arith) v.messages)
        (Refers-map db.sessions (Messages.with_status_in (i ∷ ids) s now) db.messages
          (λ r. ground arith) v.refers)
