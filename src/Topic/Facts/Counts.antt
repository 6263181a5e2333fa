-- ===== src/Topic/Facts/Counts.antt =====
-- topic-service.ts: how many rows a topic has after each statement.
pub mod Keeping
pub mod Listing
use dchat_desktop.Common.{
  ℕ, ◌+◌, String, Bool, true, false, Option, none, some, List, [], ◌∷◌, ◌++◌, ◌≡◌, refl, sym, ◌∙◌,
  ap, select, length, length-append, string_eq, pair_eq, ◌==◌, arith, if◌then◌else◌, eq_of_some, Eq,
}
use text.Mathlib.TextEquality.{eq_iff}
use dchat_desktop.Types.Topic.{Topic, TopicSubscriber}
use dchat_desktop.Table.{find, delete, update, upsert, insert}
use dchat_desktop.Store.Db.{Db, subscriber_key, topic_key}
use dchat_desktop.Store.Subscribers
use dchat_desktop.Topic.Facts.Subscribers.{length-rows_of}

abbrev pub size_in : String → List TopicSubscriber → ℕ
size_in name rows = length (select (Subscribers.in_topic name) rows)

-- The topic, if it is known, counts its subscribers.
abbrev pub Counted : String → List Topic → List TopicSubscriber → Type 0
Counted name topics rows =
    (t : Topic) → find topic_key name topics ≡ some t → t.member_count ≡ size_in name rows

size_in-append :
    (j : String) (rows : List TopicSubscriber) (r : TopicSubscriber)
    → size_in j (rows ++ r ∷ []) ≡ size_in j rows + (if r.topic_id == j then 1 else 0)
unfolding select
size_in-append j [] r = ground arith
size_in-append j (x ∷ rows) r = ground (arith, size_in-append j rows r)

update-keep :
    (k : String × String) (r : TopicSubscriber) (rows : List TopicSubscriber)
    → update subscriber_key k (Subscribers.keep r) rows ≡ rows
unfolding update
update-keep k r [] = refl
update-keep k r (x ∷ rows) = ground (arith, update-keep k r rows)

module _ (name a j : String) (now : ℕ) where
  -- The rows of another topic are as many as before.
  pub size_in-upsert :
      (rows : List TopicSubscriber)
      → (name == j) ≡ false
      → size_in j (upsert subscriber_key Subscribers.keep (Subscribers.row name now a) rows)
        ≡ size_in j rows
  unfolding upsert
  size_in-upsert rows h = ground (
    arith,
    h,
    size_in-append j rows (Subscribers.row name now a),
    update-keep (name, a) (Subscribers.row name now a) rows,
  )

  pub size_in-delete_subscriber :
      (rows : List TopicSubscriber)
      → (name == j) ≡ false
      → size_in j (delete subscriber_key (name, a) rows) ≡ size_in j rows
  unfolding delete select
  size_in-delete_subscriber [] h = refl
  size_in-delete_subscriber (r ∷ rows) h = ground (
    arith,
    h,
    size_in-delete_subscriber rows h,
    eq_iff r.topic_id name,
    eq_iff r.topic_id j,
    eq_iff name j,
  )

module _ (name j : String) where
  pub size_in-delete :
      (rows : List TopicSubscriber)
      → size_in j (delete Subscribers.by_topic name rows)
        ≡ (if name == j then 0 else size_in j rows)
  unfolding delete select
  size_in-delete [] = ground arith
  size_in-delete (r ∷ rows) =
      ground
        (arith, size_in-delete rows, eq_iff r.topic_id name, eq_iff r.topic_id j, eq_iff name j)

insert-append :
    (r : TopicSubscriber) (rows rows' : List TopicSubscriber)
    → insert subscriber_key r rows ≡ some rows'
    → rows' ≡ rows ++ r ∷ []
unfolding insert
insert-append r rows rows' e = ground arith

module _ (name j : String) (now : ℕ) where
  size_in-insert_all :
      (addresses : List String) (rows rows' : List TopicSubscriber)
      → Subscribers.insert_all name now addresses rows ≡ some rows'
      → size_in j rows' ≡ size_in j rows + (if name == j then length addresses else 0)
  unfolding Subscribers.insert_all
  size_in-insert_all [] rows rows' e = ground (arith, e)
  size_in-insert_all (a ∷ more) rows rows' e =
      go (insert subscriber_key (Subscribers.row name now a) rows) refl e
        (λ next. size_in-insert_all more next rows')
    where
      go :
          (o : Option (List TopicSubscriber))
          → insert subscriber_key (Subscribers.row name now a) rows ≡ o
          → elim o [ none ↦ none | some next ↦ Subscribers.insert_all name now more next ]
            ≡ some rows'
          → ((next : List TopicSubscriber)
              → Subscribers.insert_all name now more next ≡ some rows'
              → size_in j rows' ≡ size_in j next + (if name == j then length more else 0))
          → size_in j rows' ≡ size_in j rows + (if name == j then length (a ∷ more) else 0)
      go none h e rest = cc
      go (some next) h e rest = ground (
        arith,
        rest next e,
        ap (size_in j) (insert-append _ rows next h),
        size_in-append j rows (Subscribers.row name now a),
      )

  -- Afterwards the topic has the addresses that were given, and every other topic what it had.
  pub replace_all-sizes :
      (addresses : List String) (db db' : Db)
      → Subscribers.replace_all name addresses now db ≡ some db'
      → (db'.topics ≡ db.topics)
        × (size_in j db'.subscribers
            ≡ (if name == j then length addresses else size_in j db.subscribers))
  unfolding Subscribers.replace_all
  replace_all-sizes addresses db db' e =
      go
        (Subscribers.insert_all name now addresses
          (delete Subscribers.by_topic name db.subscribers))
        refl e
    where
      go :
          (o : Option (List TopicSubscriber))
          → Subscribers.insert_all name now addresses
              (delete Subscribers.by_topic name db.subscribers)
            ≡ o
          → Subscribers.with_rows db o ≡ some db'
          → (db'.topics ≡ db.topics)
            × (size_in j db'.subscribers
                ≡ (if name == j then length addresses else size_in j db.subscribers))
      go none h e = cc
      go (some rows) h e =
          let same = eq_of_some _ _ e in
          (
            ap (λ x. x.topics) (sym same),
            ground (
              arith,
              ap (λ x. size_in j x.subscribers) same,
              size_in-insert_all addresses _ rows h,
              size_in-delete name j db.subscribers,
            ),
          )
