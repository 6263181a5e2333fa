-- ===== src/Topic/Facts/Counts/Listing.antt =====
-- topic-service.ts: `getSubscribers` brings the count of a topic into line with its list.
use dchat_desktop.Common.{
  ℕ, String, false, Option, none, some, ◌≡◌, refl, length, string_eq, ◌==◌, arith, Bool-cases, inl,
  inr, subst,
}
use text.Mathlib.TextEquality.{eq_iff}
use dchat_desktop.Types.Topic.{Topic}
use dchat_desktop.Table.{find}
use dchat_desktop.Store.Db.{topic_key}
use dchat_desktop.Store.Topics
use dchat_desktop.Store.Subscribers
use dchat_desktop.Topic.Joining.{resync, show_topic, has_drifted, get_subscribers}
use dchat_desktop.Topic.Facts.{About, about_rules}
use dchat_desktop.Topic.Facts.Subscribers.{length-rows_of}
use dchat_desktop.Topic.Facts.Counts.{Counted, size_in}
use dchat_desktop.Topic.Facts.Counts.Keeping.{
  set_member_count-other, set_member_count-same, show_topic-Counted,
}
use dchat_desktop.Exec.{
  World, modify, ◌>>=◌, Keeps, Lands, holds_after, Keeps-pure, with_some, when, pure,
}

-- After the list was read, its topic counts it, also where the count had drifted.
module _ (name : String) (now : ℕ) where
  resync-other :
      (j : String) (count : ℕ) (t : Topic)
      → (name == j) ≡ false
      → Keeps (About (Counted j)) (resync name count now t)
  unfolding resync
  resync-other j count t h =
      search (about_rules, set_member_count-other name now j, show_topic-Counted) depth 15

  resync-same :
      (count : ℕ) (t : Topic) (w : World)
      → count ≡ size_in name w.db.subscribers
      → find topic_key name w.db.topics ≡ some t
      → About (Counted name) (resync name count now t w).1
  unfolding resync when pure
  resync-same count t w h e = elim (Bool-cases (has_drifted count t)) [
    | inl drifted ↦ rw drifted (
        holds_after (modify (Topics.set_member_count name count now)) (λ _. show_topic name) w
          (set_member_count-same name now count w h) (λ _. show_topic-Counted name name))
    | inr fits ↦ rw fits (record { tables = λ u f. ground (arith, fits, h, e, f) })
  ]

  listed :
      (o : Option Topic) (w : World)
      → find topic_key name w.db.topics ≡ o
      → About
          (Counted name)
          (with_some o (resync name (length (Subscribers.find_by_topic_id name w.db)) now) w).1
  unfolding with_some pure Subscribers.find_by_topic_id
  listed none w e = record { tables = λ t f. cc }
  listed (some t) w e = resync-same _ t w (length-rows_of name w.db.subscribers) e

  pub get_subscribers-heals : Lands (About (Counted name)) (get_subscribers name now)
  unfolding get_subscribers ◌>>=◌ Topics.find_by_id
  get_subscribers-heals = record {
    at = λ w.
        holds_after {Q = About (Counted name)}
          (with_some (find topic_key name w.db.topics)
            (resync name (length (Subscribers.find_by_topic_id name w.db)) now))
          (λ _. pure (Subscribers.find_by_topic_id name w.db)) w (listed _ w refl)
          (λ _. Keeps-pure (Subscribers.find_by_topic_id name w.db));
  }

  get_subscribers-other :
      (j : String) → (name == j) ≡ false → Keeps (About (Counted j)) (get_subscribers name now)
  unfolding get_subscribers
  get_subscribers-other j h = search (about_rules, resync-other) depth 15

  pub get_subscribers-Counted : (j : String) → Keeps (About (Counted j)) (get_subscribers name now)
  get_subscribers-Counted j = elim (Bool-cases (name == j)) [
    | inl same ↦
        subst (λ n. Keeps (About (Counted n)) (get_subscribers name now)) ((eq_iff name j).0 same)
          (record { at = λ w v. get_subscribers-heals.at w })
    | inr other ↦ get_subscribers-other j other
  ]
