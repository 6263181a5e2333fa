-- ===== src/Topic/Facts/Counts/Keeping.antt =====
-- topic-service.ts: every topic counts its subscribers, whatever the clients and the user do.
use dchat_desktop.Common.{
  ℕ, String, false, Option, none, some, List, ◌≡◌, refl, sym, ◌∙◌, length, string_eq, ◌==◌, arith,
  Bool-cases, inl, inr, subst,
}
use text.Mathlib.TextEquality.{eq_iff}
use dchat_desktop.Types.{MessageData, ContentType, topic_subscribe, topic_unsubscribe}
use dchat_desktop.Table.{find-update, find-delete}
use dchat_desktop.Store.Db.{Db, topic_key}
use dchat_desktop.Store.Topics
use dchat_desktop.Store.Subscribers
use dchat_desktop.Topic.Joining.{
  Network, ask, store_subscribers, refresh_subscribers, begin_leave, finish_leave, show_topic,
}
use dchat_desktop.Topic.Messages.{recount_topic, change_subscribers, handle_topic_control}
use dchat_desktop.Topic.Facts.{About, about_rules}
use dchat_desktop.Topic.Facts.Subscribers.{length-rows_of}
use dchat_desktop.Topic.Facts.Counts.{
  Counted, size_in, size_in-upsert, size_in-delete_subscriber, size_in-delete, replace_all-sizes,
}
use dchat_desktop.Exec.{
  World, modify, attempt, committed, next, ◌>>=◌, Keeps, Keeps-modify, Lands, Lands-modify,
  lands_rules, Lands-after_modify,
}

module _ (name : String) (now : ℕ) where
  pub set_member_count-other :
      (j : String) (count : ℕ)
      → (name == j) ≡ false
      → Keeps (About (Counted j)) (modify (Topics.set_member_count name count now))
  unfolding Topics.set_member_count Topics.set_row
  set_member_count-other j count h = Keeps-modify _ (λ w v. record {
    tables = λ t e. v.tables t (
        ground (
          arith,
          h,
          e,
          find-update topic_key name j (Topics.with_count count now) w.db.topics (λ t. refl),
        ));
  })

  -- The count that is written is the one that the rows have.
  pub set_member_count-same :
      (count : ℕ) (w : World)
      → count ≡ size_in name w.db.subscribers
      → About (Counted name) (modify (Topics.set_member_count name count now) w).1
  unfolding Topics.set_member_count Topics.set_row modify
  set_member_count-same count w h = record {
    tables = λ t e. ground (
      arith,
      h,
      e,
      eq_iff name name,
      find-update topic_key name name (Topics.with_count count now) w.db.topics (λ t. refl),
    );
  }

  recount_topic-other :
      (j : String) → (name == j) ≡ false → Keeps (About (Counted j)) (recount_topic name now)
  unfolding recount_topic
  recount_topic-other j h = search (about_rules, set_member_count-other j) depth 10

  recount_topic-same : Lands (About (Counted name)) (recount_topic name now)
  unfolding recount_topic ◌>>=◌ Subscribers.find_by_topic_id
  recount_topic-same = record {
    at = λ w. set_member_count-same _ w (length-rows_of name w.db.subscribers);
  }

pub show_topic-Counted : (j name : String) → Keeps (About (Counted j)) (show_topic name)
unfolding show_topic
show_topic-Counted j name = search about_rules depth 10

-- Whatever topic `j` one looks at.
module _ (j : String) where
  subscribe-other :
      (name src : String) (now : ℕ)
      → (name == j) ≡ false
      → Keeps (About (Counted j)) (modify (Subscribers.upsert name src now))
  unfolding Subscribers.upsert
  subscribe-other name src now h = Keeps-modify _ (λ w v. record {
    tables = λ t e. v.tables t e ∙ sym (size_in-upsert name src j now w.db.subscribers h);
  })

  unsubscribe-other :
      (name src : String)
      → (name == j) ≡ false
      → Keeps (About (Counted j)) (modify (Subscribers.delete_by_topic_and_address name src))
  unfolding Subscribers.delete_by_topic_and_address
  unsubscribe-other name src h = Keeps-modify _ (λ w v. record {
    tables = λ t e. v.tables t e ∙ sym (size_in-delete_subscriber name src j 0 w.db.subscribers h);
  })

  change_subscribers-other :
      (t : Option ContentType) (name src : String) (now : ℕ)
      → (name == j) ≡ false
      → Keeps (About (Counted j)) (change_subscribers t name src now)
  unfolding change_subscribers
  change_subscribers-other (some topic_subscribe) name src now h =
      search (about_rules, subscribe-other, recount_topic-other) depth 10
  change_subscribers-other (some topic_unsubscribe) name src now h =
      search (about_rules, unsubscribe-other, recount_topic-other) depth 10
  change_subscribers-other t name src now h = search about_rules

  change_subscribers-same :
      (t : Option ContentType) (src : String) (now : ℕ)
      → Keeps (About (Counted j)) (change_subscribers t j src now)
  unfolding change_subscribers
  change_subscribers-same (some topic_subscribe) src now =
      let l =
        Lands-after_modify (Subscribers.upsert j src now) (λ _. recount_topic j now)
          (λ _. recount_topic-same j now) in
      record { at = λ w v. l.at w }
  change_subscribers-same (some topic_unsubscribe) src now =
      let l =
        Lands-after_modify (Subscribers.delete_by_topic_and_address j src)
          (λ _. recount_topic j now) (λ _. recount_topic-same j now) in
      record { at = λ w v. l.at w }
  change_subscribers-same t src now = search about_rules

  change_subscribers-Counted :
      (t : Option ContentType) (name src : String) (now : ℕ)
      → Keeps (About (Counted j)) (change_subscribers t name src now)
  change_subscribers-Counted t name src now = elim (Bool-cases (name == j)) [
    | inl same ↦
        subst (λ n. Keeps (About (Counted j)) (change_subscribers t n src now))
          (sym ((eq_iff name j).0 same)) (change_subscribers-same t src now)
    | inr other ↦ change_subscribers-other t name src now other
  ]

  pub handle_topic_control-Counted :
      (src : String) (d : MessageData) (now : ℕ)
      → Keeps (About (Counted j)) (handle_topic_control src d now)
  unfolding handle_topic_control
  handle_topic_control-Counted src d now =
      search (about_rules, change_subscribers-Counted, show_topic-Counted) depth 20

  stored :
      (name : String) (addresses : List String) (now : ℕ) (w : World) (o : Option Db)
      → Subscribers.replace_all name addresses now w.db ≡ o
      → About (Counted j) w
      → About
          (Counted j)
          (next
            (committed w o)
            (λ _. modify (Topics.set_member_count name (length addresses) now))).1
  stored name addresses now w none h v = v
  stored name addresses now w (some db) h v =
      let sizes = replace_all-sizes name j now addresses w.db db h in
      elim (Bool-cases (name == j)) [
        | inl same ↦
            subst
              (λ n.
                About (Counted n)
                  (modify (Topics.set_member_count name (length addresses) now)
                    (record w { db = db })).1)
              ((eq_iff name j).0 same)
              (set_member_count-same name now (length addresses) (record w { db = db })
                (ground (
                  arith,
                  (replace_all-sizes name name now addresses w.db db h).1,
                  eq_iff name name,
                )))
        | inr other ↦
            (set_member_count-other name now j (length addresses) other).at (record w { db = db })
              (record {
                tables = λ t e. v.tables t (rw (sym sizes.0) e) ∙ ground (arith, sizes.1, other);
              })
      ]

  pub store_subscribers-Counted :
      (name : String) (addresses : List String) (now : ℕ)
      → Keeps (About (Counted j)) (store_subscribers name addresses now)
  unfolding store_subscribers ◌>>=◌ attempt
  store_subscribers-Counted name addresses now = record {
    at = λ w v. stored name addresses now w _ refl v;
  }

  ask-Counted : {A : Type 0} (answer : Option A) → Keeps (About (Counted j)) (ask answer)
  unfolding ask
  ask-Counted answer = search about_rules depth 10

  pub refresh_subscribers-Counted :
      (net : Network) (name : String) (now : ℕ)
      → Keeps (About (Counted j)) (refresh_subscribers net name now)
  unfolding refresh_subscribers
  refresh_subscribers-Counted net name now =
      search (about_rules, ask-Counted, store_subscribers-Counted) depth 15

  delete_subscribers-other :
      (name : String)
      → (name == j) ≡ false
      → Keeps (About (Counted j)) (modify (Subscribers.delete_by_topic_id name))
  unfolding Subscribers.delete_by_topic_id
  delete_subscribers-other name h = Keeps-modify _ (λ w v. record {
    tables = λ t e. v.tables t e ∙ ground (arith, h, size_in-delete name j w.db.subscribers);
  })

  delete_topic-other :
      (name : String)
      → (name == j) ≡ false
      → Keeps (About (Counted j)) (modify (Topics.delete_by_id name))
  unfolding Topics.delete_by_id
  delete_topic-other name h = Keeps-modify _ (λ w v. record {
    tables = λ t e. v.tables t (ground (arith, h, e, find-delete topic_key name j w.db.topics));
  })

  -- A topic that is gone counts nothing.
  delete_topic-same : Lands (About (Counted j)) (modify (Topics.delete_by_id j))
  unfolding Topics.delete_by_id
  delete_topic-same = Lands-modify _ (λ w. record {
    tables = λ t e. ground (arith, e, eq_iff j j, find-delete topic_key j j w.db.topics);
  })

  finish_leave-other :
      (name : String) → (name == j) ≡ false → Keeps (About (Counted j)) (finish_leave name)
  unfolding finish_leave
  finish_leave-other name h =
      search (about_rules, delete_subscribers-other, delete_topic-other) depth 20

  finish_leave-same : Lands (About (Counted j)) (finish_leave j)
  unfolding finish_leave
  finish_leave-same = search (lands_rules, about_rules, delete_topic-same) depth 20

  pub finish_leave-Counted : (name : String) → Keeps (About (Counted j)) (finish_leave name)
  finish_leave-Counted name = elim (Bool-cases (name == j)) [
    | inl same ↦
        subst (λ n. Keeps (About (Counted j)) (finish_leave n)) (sym ((eq_iff name j).0 same))
          (record { at = λ w v. finish_leave-same.at w })
    | inr other ↦ finish_leave-other name other
  ]

  pub begin_leave-Counted :
      (name id : String) (now : ℕ) → Keeps (About (Counted j)) (begin_leave name id now)
  unfolding begin_leave
  begin_leave-Counted name id now = search about_rules depth 15
