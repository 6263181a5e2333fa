-- ===== src/Topic/Facts/Replacing.antt =====
-- topic-subscriber-repository.ts: what `replaceAll` leaves of the subscribers.
use dchat_desktop.Common.{
  ℕ, String, true, false, not, ◌&&◌, ◌||◌, some, List, [], ◌∷◌, ◌++◌, ◌≡◌, refl, contains,
  string_eq, pair_eq, ◌==◌, arith,
}
use text.Mathlib.TextEquality.{eq_iff}
use dchat_desktop.Types.Topic.{TopicSubscriber}
use dchat_desktop.Table.{find, delete, insert, find-append}
use dchat_desktop.Store.Db.{subscriber_key}
use dchat_desktop.Store.Subscribers
use dchat_desktop.Topic.Facts.Subscribers.{is_subscriber}

-- No address comes twice.
abbrev pub Distinct : List String → Type 0
Distinct [] = Unit
Distinct (a ∷ more) = (contains more a ≡ false) × Distinct more

pub is_subscriber-delete_topic :
    (name j a : String) (rows : List TopicSubscriber)
    → is_subscriber j a (delete Subscribers.by_topic name rows)
      ≡ (not (name == j) && is_subscriber j a rows)
unfolding find delete
is_subscriber-delete_topic name j a [] = ground arith
is_subscriber-delete_topic name j a (r ∷ rows) = ground (
  arith,
  is_subscriber-delete_topic name j a rows,
  eq_iff r.topic_id name,
  eq_iff r.topic_id j,
  eq_iff name j,
)

module _ (name : String) (now : ℕ) where
  insert-new :
      (a : String) (rows : List TopicSubscriber)
      → is_subscriber name a rows ≡ false
      → insert subscriber_key (Subscribers.row name now a) rows
        ≡ some (rows ++ Subscribers.row name now a ∷ [])
  unfolding insert
  insert-new a rows h = ground (arith, h)

  is_subscriber-append :
      (j b a : String) (rows : List TopicSubscriber)
      → is_subscriber j b (rows ++ Subscribers.row name now a ∷ [])
        ≡ (is_subscriber j b rows || (name == j && a == b))
  is_subscriber-append j b a rows =
      ground (arith, find-append subscriber_key (j, b) rows (Subscribers.row name now a))

  -- The rows after the loop: those before, and one for each address.
  pub record Inserted (addresses : List String) (rows : List TopicSubscriber) : Type 0 where
    pub after : List TopicSubscriber
    pub done : Subscribers.insert_all name now addresses rows ≡ some after
    pub listed :
        (j b : String)
        → is_subscriber j b after ≡ ((name == j && contains addresses b) || is_subscriber j b rows)

  pub insert_all-Inserted :
      (addresses : List String) (rows : List TopicSubscriber)
      → Distinct addresses
      → ((a : String) → contains addresses a ≡ true → is_subscriber name a rows ≡ false)
      → Inserted addresses rows
  unfolding Subscribers.insert_all contains
  insert_all-Inserted [] rows d h = record {
    after = rows;
    done = refl;
    listed = λ j b. ground arith;
  }
  insert_all-Inserted (a ∷ more) rows d h =
      let rows' = rows ++ Subscribers.row name now a ∷ [] in
      let rest =
        insert_all-Inserted more rows' d.1
          (λ b e. ground (arith, d.0, e, h b, is_subscriber-append name b a rows, eq_iff a b)) in
      record {
        after = rest.after;
        done =
            rw (insert-new a rows (h a (ground (arith, eq_iff a a))), Subscribers.insert_all)
              rest.done;
        listed = λ j b. ground (arith, rest.listed j b, is_subscriber-append j b a rows);
      }
