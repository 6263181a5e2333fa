-- ===== src/Topic/Facts/Sequences.antt =====
-- topic-service.ts: what holds after any sequence of steps.
use dchat_desktop.Common.{
  ℕ, String, false, some, List, [], ◌∷◌, All, ◌≡◌, length, string_eq, ◌==◌, ◌∙◌, sym, arith, refl,
}
use dchat_desktop.Types.Topic.{Topic}
use dchat_desktop.Table.{find-upsert}
use dchat_desktop.Store.Db.{topic_key}
use dchat_desktop.Store.Topics
use dchat_desktop.Store.Subscribers
use dchat_desktop.Group.Messages.{Media}
use dchat_desktop.Topic.Joining.{store_topic}
use dchat_desktop.Topic.Events.{
  Event, control_arrives, message_arrives, subscribed, subscribers_came, announces_join, leaves,
  unsubscribed, lists, sends, uploads, uploaded, recorded, run, run_all,
}
use dchat_desktop.Topic.Facts.{About, about_rules}
use dchat_desktop.Topic.Facts.Subscribers.{length-rows_of}
use dchat_desktop.Topic.Facts.Counts.{Counted}
use dchat_desktop.Topic.Facts.Counts.Keeping.{
  handle_topic_control-Counted, store_subscribers-Counted, begin_leave-Counted,
  finish_leave-Counted,
}
use dchat_desktop.Topic.Facts.Counts.Listing.{get_subscribers-Counted}
use dchat_desktop.Topic.Facts.Untouched.{
  handle_topic_message-About, announce_join-About, send_topic_message-About,
  begin_topic_upload-About, finish_topic_upload-About, finish_topic_audio-About,
}
use dchat_desktop.Exec.{World, modify, Keeps, Keeps-modify}

-- A join of the topic itself writes the count 0 until the subscribers come.
abbrev pub Spares : String → Event → Type 0
Spares j (subscribed name) = (name == j) ≡ false
Spares j _ = Unit {0}

module _ (media : Media) (j : String) where
  upsert_topic-other :
      (t : Topic) → (t.id == j) ≡ false → Keeps (About (Counted j)) (modify (Topics.upsert t))
  unfolding Topics.upsert
  upsert_topic-other t h = Keeps-modify _ (λ w v. record {
    tables = λ u e.
        v.tables u
          (ground (arith, h, e, find-upsert topic_key Topics.merge t j w.db.topics (λ x y. refl)));
  })

  store_topic-Counted :
      (name : String) (now : ℕ)
      → (name == j) ≡ false
      → Keeps (About (Counted j)) (store_topic name now)
  unfolding store_topic
  store_topic-Counted name now h = search (about_rules, upsert_topic-other) depth 10

  run-Counted :
      (e : Event) (now : ℕ) (w : World)
      → Spares j e
      → About (Counted j) w
      → About (Counted j) (run media e now w)
  unfolding run
  run-Counted (control_arrives src d) now w s = (handle_topic_control-Counted j src d now).at w
  run-Counted (message_arrives src d) now w s = (handle_topic_message-About _ media src d now).at w
  run-Counted (subscribed name) now w s = (store_topic-Counted name now s).at w
  run-Counted (subscribers_came name rows) now w s =
      (store_subscribers-Counted j name rows now).at w
  run-Counted (announces_join name own id) now w s = (announce_join-About _ name own id now).at w
  run-Counted (leaves name id) now w s = (begin_leave-Counted j name id now).at w
  run-Counted (unsubscribed name) now w s = (finish_leave-Counted j name).at w
  run-Counted (lists name) now w s = (get_subscribers-Counted name now j).at w
  run-Counted (sends name c t id) now w s = (send_topic_message-About _ name c t id now).at w
  run-Counted (uploads p name v id) now w s = (begin_topic_upload-About _ p name v id now).at w
  run-Counted (uploaded name own m r) now w s = (finish_topic_upload-About _ name own m r now).at w
  run-Counted (recorded name id own at r) now w s =
      (finish_topic_audio-About _ name id own at r now).at w

  run_all-About :
      (es : List (Event × ℕ)) (w : World)
      → All (λ e. Spares j e.0) es
      → About (Counted j) w
      → About (Counted j) (run_all media es w)
  unfolding run_all
  run_all-About [] w s v = v
  run_all-About ((e, now) ∷ es) w s v = run_all-About es _ s.1 (run-Counted e now w s.0 v)

  -- Whatever arrives and whatever the user does, in any order and with any interleaving of the methods
  -- that wait for the network, as long as the topic is not joined anew: if the topic counted its
  -- subscribers before, it counts them afterwards, or is gone.
  pub run_all-counts :
      (es : List (Event × ℕ)) (w : World)
      → All (λ e. Spares j e.0) es
      → ((t : Topic)
          → Topics.find_by_id j w.db ≡ some t
          → t.member_count ≡ length (Subscribers.find_by_topic_id j w.db))
      → (t : Topic) → Topics.find_by_id j (run_all media es w).db ≡ some t
      → t.member_count ≡ length (Subscribers.find_by_topic_id j (run_all media es w).db)
  unfolding Topics.find_by_id Subscribers.find_by_topic_id
  run_all-counts es w s v t e =
      (run_all-About es w s
          (record { tables = λ u f. v u f ∙ length-rows_of j w.db.subscribers })).tables
        t e
      ∙ sym (length-rows_of j (run_all media es w).db.subscribers)
