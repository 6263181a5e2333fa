-- ===== src/Topic/Facts/Leaving.antt =====
-- topic-service.ts: what `leave` takes out of the database, and what it leaves there.
use dchat_desktop.Common.{
  ℕ, String, false, none, some, List, [], ◌∷◌, ◌≡◌, refl, ap, ◌∙◌, select, string_eq, pair_eq, ◌==◌,
  arith, if◌then◌else◌, Option-cases, inl, inr,
}
use text.Mathlib.TextEquality.{eq_iff}
use dchat_desktop.Types.{Message}
use dchat_desktop.Types.Topic.{TopicSubscriber}
use dchat_desktop.Table.{find, delete, find-delete}
use dchat_desktop.Table.Order.{order_asc}
use dchat_desktop.Store.Db.{Db, topic_key, session_key, message_key}
use dchat_desktop.Store.Topics
use dchat_desktop.Store.Subscribers
use dchat_desktop.Store.Messages
use dchat_desktop.Store.Sessions
use dchat_desktop.Topic.Session.{topic_session}
use dchat_desktop.Topic.Joining.{
  Network, gen_topic_hash, ask, begin_leave, unsubscribe, finish_leave, leave,
}
use dchat_desktop.Exec.{World, ok, next}

select-delete :
    (name j : String) (rows : List TopicSubscriber)
    → select (Subscribers.in_topic j) (delete Subscribers.by_topic name rows)
      ≡ (if name == j then [] else select (Subscribers.in_topic j) rows)
unfolding select delete
select-delete name j [] = ground arith
select-delete name j (r ∷ rows) =
    ground
      (arith, select-delete name j rows, eq_iff r.topic_id name, eq_iff r.topic_id j, eq_iff name j)

-- A row that is found is not of the session, and the others stay.
find-delete_session :
    (session id : String) (rows : List Message) (m : Message)
    → find message_key id (delete (λ x. x.session_id) session rows) ≡ some m
    → (m.session_id == session) ≡ false
unfolding find delete
find-delete_session session id [] m h = cc
find-delete_session session id (x ∷ rows) m h =
    ground (arith, h, find-delete_session session id rows m)

find-delete_other_session :
    (session id : String) (rows : List Message) (m : Message)
    → find message_key id rows ≡ some m
    → (m.session_id == session) ≡ false
    → find message_key id (delete (λ x. x.session_id) session rows) ≡ some m
unfolding find delete
find-delete_other_session session id [] m h k = cc
find-delete_other_session session id (x ∷ rows) m h k =
    ground (arith, h, k, find-delete_other_session session id rows m)

abbrev pub gone : String → Db → Db
gone name db = Topics.delete_by_id name (
    Sessions.delete_by_id (topic_session name)
      (Messages.delete_by_session_id (topic_session name) (Subscribers.delete_by_topic_id name db)))

finish_leave-gone :
    (name : String) (w : World)
    → ((finish_leave name w).0 ≡ ok tt) × ((finish_leave name w).1.db ≡ gone name w.db)
unfolding finish_leave
finish_leave-gone name w = (refl, refl)

pub begin_leave-db :
    (name id own : String) (now : ℕ) (w : World)
    → w.account ≡ some own
    → ((begin_leave name id now w).0 ≡ ok tt) × ((begin_leave name id now w).1.db ≡ w.db)
unfolding begin_leave
begin_leave-db name id own now w h = ground (arith, h)

-- The client goes on, whatever the network answers.
pub unsubscribe-same :
    (net : Network) (name : String) (w : World) → unsubscribe net name w ≡ (ok tt, w)
unfolding unsubscribe ask
unsubscribe-same net name w = elim (Option-cases w.account) [
  | inl e ↦ rw e refl
  | inr (own, e) ↦ rw e (elim (Option-cases (net.unsubscribe (gen_topic_hash net.sha1 name))) [
    | inl lost ↦ rw lost refl
    | inr (receipt, taken) ↦ rw taken refl
  ])
]

pub leave-gone :
    (net : Network) (name id own : String) (now : ℕ) (w : World)
    → w.account ≡ some own
    → ((leave net name id now w).0 ≡ ok tt) × ((leave net name id now w).1.db ≡ gone name w.db)
unfolding leave
leave-gone net name id own now w h =
    let begun = begin_leave-db name id own now w h in
    let done = finish_leave-gone name (begin_leave name id now w).1 in
    rw (begun.0, next, unsubscribe-same net name (begin_leave name id now w).1)
      (done.0, done.1 ∙ ap (gone name) begun.1)

-- What `leave` has to do to the database `before`, written without the program.
pub record Left (name : String) (before after : Db) : Type 0 where
  pub topic : Topics.find_by_id name after ≡ none
  pub subscribers : Subscribers.find_by_topic_id name after ≡ []
  pub session : Sessions.find_by_id (topic_session name) after ≡ none
  pub messages :
      (id : String) (m : Message)
      → Messages.find_by_id id after ≡ some m
      → (m.session_id == topic_session name) ≡ false
  pub other_topics :
      (j : String)
      → (name == j) ≡ false
      → (Topics.find_by_id j after ≡ Topics.find_by_id j before)
        × (Subscribers.find_by_topic_id j after ≡ Subscribers.find_by_topic_id j before)
  pub other_messages :
      (id : String) (m : Message)
      → Messages.find_by_id id before ≡ some m
      → (m.session_id == topic_session name) ≡ false
      → Messages.find_by_id id after ≡ some m

gone-Left : (name : String) (db : Db) → Left name db (gone name db)
unfolding Topics.delete_by_id Sessions.delete_by_id Messages.delete_by_session_id
    Subscribers.delete_by_topic_id Topics.find_by_id Subscribers.find_by_topic_id
    Sessions.find_by_id Messages.find_by_id Subscribers.rows_of order_asc
gone-Left name db = record {
  topic = ground (arith, find-delete topic_key name name db.topics, eq_iff name name);
  subscribers = rw (select-delete name name db.subscribers, (eq_iff name name).1 refl) refl;
  session = ground (
    arith,
    find-delete session_key (topic_session name) (topic_session name) db.sessions,
    eq_iff (topic_session name) (topic_session name),
  );
  messages = λ id m h.
      find-delete_session (topic_session name) id
        (delete (λ x. x.session_id) (topic_session name) db.messages) m h;
  other_topics = λ j h. (
    ground (arith, h, find-delete topic_key name j db.topics),
    rw (select-delete name j db.subscribers, h) refl,
  );
  other_messages = λ id m h k.
      find-delete_other_session (topic_session name) id _ m
        (find-delete_other_session (topic_session name) id db.messages m h k) k;
}

-- A connected client that leaves a topic never fails, whether or not the network takes the
-- unsubscription. Afterwards there is no topic, no subscriber and no session of that name, and no
-- message in such a session; the other topics with their subscribers, and the messages of all other
-- sessions, are what they were.
pub leave-Left :
    (net : Network) (name id own : String) (now : ℕ) (w : World)
    → w.account ≡ some own
    → ((leave net name id now w).0 ≡ ok tt) × Left name w.db (leave net name id now w).1.db
leave-Left net name id own now w h =
    let l = leave-gone net name id own now w h in (l.0, rw l.1 (gone-Left name w.db))
