-- ===== src/Topic/Facts/Joined.antt =====
-- topic-service.ts: what a join leaves: `createAndJoin`.
use dchat_desktop.Common.{
  ℕ, String, Bool, true, Option, some, List, ◌≡◌, refl, ◌∙◌, ap, length, contains, string_eq,
  pair_eq, arith, Bool-cases, inl, inr, Option-cases,
}
use text.Mathlib.TextEquality.{eq_iff}
use dchat_desktop.Types.Topic.{Topic}
use dchat_desktop.Table.{find, delete, find-update, find-upsert}
use dchat_desktop.Store.Db.{Db, topic_key, is_some}
use dchat_desktop.Store.Topics
use dchat_desktop.Store.Subscribers
use dchat_desktop.Store.Sessions
use dchat_desktop.Topic.Session.{subscriber_addresses, topic_session, get_or_create_topic_session}
use dchat_desktop.Topic.Joining.{
  Network, gen_topic_hash, is_topic_name, ask, begin_join, store_topic, store_subscribers,
  announce_join, create_and_join, joined_topic,
}
use dchat_desktop.Topic.Facts.Subscribers.{is_subscriber, contains-subscriber_addresses}
use dchat_desktop.Topic.Facts.Replacing.{
  Distinct, is_subscriber-delete_topic, Inserted, insert_all-Inserted,
}
use dchat_desktop.Exec.{World, attempt, when, pure, modify, ok, next, bind_of_ok}

get_or_create_topic_session-ok :
    (name : String) (now : ℕ) (w : World)
    → let r = get_or_create_topic_session name now w in
      (r.0 ≡ ok tt)
      × (r.1.account ≡ w.account)
      × (r.1.db.topics ≡ w.db.topics)
      × (r.1.db.subscribers ≡ w.db.subscribers)
unfolding get_or_create_topic_session when pure modify Sessions.upsert
get_or_create_topic_session-ok name now w =
    elim (Bool-cases (is_some (Sessions.find_by_id (topic_session name) w.db))) [
      | inl e ↦ rw e (refl, refl, refl, refl)
      | inr e ↦ rw e (refl, refl, refl, refl)
    ]

store_topic-ok :
    (name : String) (now : ℕ) (w : World)
    → ((store_topic name now w).0 ≡ ok tt)
      × ((store_topic name now w).1.account ≡ w.account)
      × ((store_topic name now w).1.db.topics ≡ (Topics.upsert (joined_topic name now) w.db).topics)
      × ((store_topic name now w).1.db.subscribers ≡ w.db.subscribers)
unfolding store_topic Topics.upsert
store_topic-ok name now w =
    get_or_create_topic_session-ok name now
      (record w { db = Topics.upsert (joined_topic name now) w.db })

begin_join-ok :
    (letter_or_number : ℕ → Bool) (name own : String) (w : World)
    → is_topic_name letter_or_number name ≡ true
    → w.account ≡ some own
    → begin_join letter_or_number name w ≡ (ok own, w)
unfolding begin_join
begin_join-ok letter_or_number name own w valid h = ground (arith, valid, h)

ask-ok :
    {A : Type 0} (answer : Option A) (own : String) (a : A) (w : World)
    → w.account ≡ some own
    → answer ≡ some a
    → ask answer w ≡ (ok a, w)
unfolding ask
ask-ok answer own a w h e = ground (arith, h, e)

announce_join-ok :
    (name own id : String) (joined_at : ℕ) (w : World)
    → w.account ≡ some own
    → ((announce_join name own id joined_at w).0 ≡ ok (Topics.find_by_id name w.db))
      × ((announce_join name own id joined_at w).1.db ≡ w.db)
unfolding announce_join
announce_join-ok name own id joined_at w h = ground (arith, h)

module _ (net : Network) (name id own : String) (joined_at now : ℕ) (addresses : List String) where
  -- The network takes the subscription, and then names the subscribers.
  pub record Answers : Type 0 where
    pub valid : is_topic_name net.letter_or_number name ≡ true
    pub receipt : String
    pub taken : net.subscribe (gen_topic_hash net.sha1 name) ≡ some receipt
    pub came : net.subscribers (gen_topic_hash net.sha1 name) ≡ some addresses

  create_and_join-run :
      (w : World)
      → w.account ≡ some own
      → Answers
      → create_and_join net name id joined_at now w
        ≡ next
            (store_subscribers name addresses now (store_topic name joined_at w).1)
            (λ _. announce_join name own id joined_at)
  unfolding create_and_join
  create_and_join-run w h a =
      let first = store_topic-ok name joined_at w in
      rw
        (
          begin_join-ok net.letter_or_number name own w a.valid h,
          ask-ok (net.subscribe (gen_topic_hash net.sha1 name)) own a.receipt w h a.taken,
        )
        (bind_of_ok (store_topic name joined_at) _ w tt first.0
          ∙ rw
              (ask-ok (net.subscribers (gen_topic_hash net.sha1 name)) own addresses
                (store_topic name joined_at w).1 (first.1 ∙ h) a.came)
              refl)

found_topic :
    (name : String) (now : ℕ) (db : Db)
    → (u : Topic) × (find topic_key name (Topics.upsert (joined_topic name now) db).topics ≡ some u)
      × (u.joined ≡ true)
unfolding Topics.upsert
found_topic name now db =
    let f =
      find-upsert topic_key Topics.merge (joined_topic name now) name db.topics (λ x y. refl) in
    elim (Option-cases (find topic_key name db.topics)) [
      | inl e ↦ (joined_topic name now, ground (arith, e, f, eq_iff name name), refl)
      | inr (t, e) ↦
          (Topics.merge (joined_topic name now) t, ground (arith, e, f, eq_iff name name), refl)
    ]

module _ (name : String) (addresses : List String) (now : ℕ) (w : World)
    (i : Inserted name now addresses (delete Subscribers.by_topic name w.db.subscribers)) where
  store_subscribers-ok :
      let r = store_subscribers name addresses now w in
      (r.0 ≡ ok tt)
      × (r.1.account ≡ w.account)
      × (r.1.db.topics ≡ (Topics.set_member_count name (length addresses) now w.db).topics)
      × (r.1.db.subscribers ≡ i.after)
  unfolding store_subscribers attempt modify Subscribers.replace_all Topics.set_member_count
      Topics.set_row
  store_subscribers-ok = rw i.done (refl, refl, refl, refl)

-- What a join has to leave in the database, written without the program.
pub record Joined (name : String) (addresses : List String) (t : Topic) (db : Db) : Type 0 where
  pub joined : t.joined ≡ true
  pub count : t.member_count ≡ length addresses
  pub stored : Topics.find_by_id name db ≡ some t
  pub listed : (a : String) → contains (subscriber_addresses name db) a ≡ contains addresses a

module _ (net : Network) (name id own : String) (joined_at now : ℕ) (addresses : List String)
    (w : World) where
  joined_world : World
  joined_world = (store_subscribers name addresses now (store_topic name joined_at w).1).1

  create_and_join-announces :
      Distinct addresses
      → w.account ≡ some own
      → Answers net name id own joined_at now addresses
      → (t : Topic) × (create_and_join net name id joined_at now w
          ≡ announce_join name own id joined_at joined_world)
        × (joined_world.account ≡ some own)
        × Joined name addresses t joined_world.db
  unfolding joined_world Topics.find_by_id Topics.set_member_count Topics.set_row
  create_and_join-announces distinct h a =
      let w1 = (store_topic name joined_at w).1 in
      let first = store_topic-ok name joined_at w in
      let i =
        insert_all-Inserted name now addresses (delete Subscribers.by_topic name w1.db.subscribers)
          distinct
          (λ b e.
            ground (
              arith,
              is_subscriber-delete_topic name name b w1.db.subscribers,
              eq_iff name name,
            )) in
      let done = store_subscribers-ok name addresses now w1 i in
      let u = found_topic name joined_at w.db in
      (
        Topics.with_count (length addresses) now u.0,
        create_and_join-run net name id own joined_at now addresses w h a
            ∙ ap (λ r. next (r, joined_world) (λ _. announce_join name own id joined_at)) done.0,
        done.1 ∙ first.1 ∙ h,
        record {
          joined = u.2;
          count = refl;
          stored =
              rw (done.2, first.2)
                (ground (
                  arith,
                  u.1,
                  eq_iff name name,
                  find-update topic_key name name (Topics.with_count (length addresses) now)
                      (Topics.upsert (joined_topic name joined_at) w.db).topics (λ t. refl),
                ));
          listed = λ b.
              contains-subscriber_addresses name b joined_world.db
              ∙ ground (
                arith,
                ap (λ rows. is_subscriber name b rows) done.3,
                i.listed name b,
                is_subscriber-delete_topic name name b w1.db.subscribers,
                eq_iff name name,
              );
        },
      )

  -- If the name is allowed and the network takes the subscription and names distinct subscribers, then
  -- joining returns the topic as it is stored: joined, with as many members as there are subscribers,
  -- and exactly these are cached as its subscribers.
  pub create_and_join-Joined :
      Distinct addresses
      → w.account ≡ some own
      → Answers net name id own joined_at now addresses
      → (t : Topic) × ((create_and_join net name id joined_at now w).0 ≡ ok (some t))
        × Joined name addresses t (create_and_join net name id joined_at now w).1.db
  create_and_join-Joined distinct h a =
      let (t, run, account, joined) = create_and_join-announces distinct h a in
      let last = announce_join-ok name own id joined_at joined_world account in
      (t, rw run (last.0 ∙ ap (λ o. ok o) joined.stored), rw (run, last.1) joined)
