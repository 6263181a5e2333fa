-- ===== src/Discovery/Facts/Merging.antt =====
-- discovery-service.ts: the counts of the groups that announcements leave.
use dchat_desktop.Common.{
  ℕ, String, Bool, true, false, ◌&&◌, Option, none, some, List, [], ◌∷◌, ◌≡◌, refl, ◌∙◌, ap, select,
  length, string_eq, ◌==◌, arith, ltb, if◌then◌else◌, Bool-cases, inl, inr,
}
use dchat_desktop.Common.Text.{or_empty}
use dchat_desktop.Types.Topic.{DiscoveredGroup}
use dchat_desktop.Table.{find-upsert}
use dchat_desktop.Store.Db.{Db, discovered_key}
use dchat_desktop.Store.Discovered
use dchat_desktop.Store.Discovered.{max}
use dchat_desktop.Group.Payload.{◌or_else◌}
use dchat_desktop.Discovery.Cache.{Files}
use dchat_desktop.Discovery.Announcing.{push_discovery_update}
use dchat_desktop.Discovery.Receiving.{
  RawGroup, handle_announcement, announced_group, accepted_groups, is_valid_name,
}
use dchat_desktop.Exec.{Exec, World, ok, modify, when, for_each, next}

-- The count that is shown for a group; a group that is not known has none.
abbrev count_in : Option DiscoveredGroup → ℕ
count_in none = 0
count_in (some g) = g.subscriber_count

abbrev pub count_of : String → Db → ℕ
count_of name db = count_in (Discovered.find_by_topic_name name db)

-- The highest count that a valid entry of an announcement gives for a group, written without the program.
pub peak : String → List RawGroup → ℕ
peak name [] = 0
peak name (g ∷ gs) =
    if is_valid_name g.topic_id && or_empty g.topic_id == name
    then max (g.subscriber_count or_else 0) (peak name gs)
    else peak name gs

abbrev store_all : Files → String → ℕ → List RawGroup → Exec (Unit {0})
store_all files src now gs =
    for_each gs (λ g. modify (Discovered.upsert (announced_group files src now g)))

module _ (files : Files) (src : String) (now : ℕ) (name : String) where
  count_of-upsert :
      (g : RawGroup) (db : Db)
      → count_of name (Discovered.upsert (announced_group files src now g) db) ≡ (
          if or_empty g.topic_id == name
          then max (g.subscriber_count or_else 0) (count_of name db)
          else count_of name db)
  unfolding Discovered.upsert Discovered.find_by_topic_name
  count_of-upsert g db = ground (
    arith,
    find-upsert discovered_key Discovered.merge
        (Discovered.row_of (announced_group files src now g)) name db.discovered (λ x y. refl),
  )

  count_of-store_all :
      (gs : List RawGroup) (w : World)
      → ((store_all files src now (accepted_groups gs) w).0 ≡ ok tt)
        × (count_of name (store_all files src now (accepted_groups gs) w).1.db
            ≡ max (peak name gs) (count_of name w.db))
  unfolding for_each select peak modify
  count_of-store_all [] w = (refl, ground arith)
  count_of-store_all (g ∷ gs) w = elim (Bool-cases (is_valid_name g.topic_id)) [
    | inl valid ↦
        let w1 = record w { db = Discovered.upsert (announced_group files src now g) w.db } in
        let rest = count_of-store_all gs w1 in
        rw valid (rest.0, ground (arith, rest.1, count_of-upsert g w.db))
    | inr bad ↦ rw bad (count_of-store_all gs w)
  ]

show_if-db :
    (b : Bool) (w : World)
    → ((when b push_discovery_update w).0 ≡ ok tt) × ((when b push_discovery_update w).1.db ≡ w.db)
unfolding push_discovery_update when
show_if-db true w = (refl, refl)
show_if-db false w = (refl, refl)

-- An announcement never fails, and leaves for every group the highest of the count that it had and of
-- the counts that the valid entries of the announcement give for it.
pub count_of-handle_announcement :
    (files : Files) (src : String) (gs : List RawGroup) (now : ℕ) (name : String) (w : World)
    → ((handle_announcement files src (some gs) now w).0 ≡ ok tt)
      × (count_of name (handle_announcement files src (some gs) now w).1.db
          ≡ max (peak name gs) (count_of name w.db))
unfolding handle_announcement
count_of-handle_announcement files src gs now name w =
    let s = count_of-store_all files src now name gs w in
    let after = (store_all files src now (accepted_groups gs) w).1 in
    let t = show_if-db (ltb 0 (length (accepted_groups gs))) after in
    rw (s.0, next) (t.0, ap (count_of name) t.1 ∙ s.1)

-- Clients agree: whichever of two announcements, from any senders, comes first, every group is shown
-- with the same count in the end.
pub handle_announcement_comm :
    (files : Files) (src src' : String) (gs gs' : List RawGroup) (now now' : ℕ) (name : String)
    → (w : World)
    → count_of name
        (handle_announcement files src'
          (some gs')
          now'
          (handle_announcement files src (some gs) now w).1).1.db
      ≡ count_of name
          (handle_announcement files src
            (some gs)
            now
            (handle_announcement files src' (some gs') now' w).1).1.db
handle_announcement_comm files src src' gs gs' now now' name w =
    let first = (handle_announcement files src (some gs) now w).1 in
    let first' = (handle_announcement files src' (some gs') now' w).1 in
    ground (
      arith,
      (count_of-handle_announcement files src' gs' now' name first).1,
      (count_of-handle_announcement files src gs now name w).1,
      (count_of-handle_announcement files src gs now name first').1,
      (count_of-handle_announcement files src' gs' now' name w).1,
    )
