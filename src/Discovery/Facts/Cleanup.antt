-- ===== src/Discovery/Facts/Cleanup.antt =====
-- discovery-service.ts: what `cleanupStale` deletes.
use dchat_desktop.Common.{
  ◌*◌, ℕ, ◌-◌, String, Bool, true, Option, none, some, List, [], ◌∷◌, ◌≡◌, refl, ◌∙◌, ap, select,
  string_eq, ◌==◌, arith, if◌then◌else◌, ltb,
}
use dchat_desktop.Types.Topic.{DiscoveredGroup}
use dchat_desktop.Table.{find, IsKeyed}
use dchat_desktop.Store.Db.{IsIntact, discovered_key}
use dchat_desktop.Store.Discovered
use dchat_desktop.Discovery.Announcing.{cleanup_stale, stale_threshold_ms, push_discovery_update}
use dchat_desktop.Exec.{World, ok}

kept : (DiscoveredGroup → Bool) → Option DiscoveredGroup → Option DiscoveredGroup
kept p none = none
kept p (some g) = if p g then some g else none

module _ (p : DiscoveredGroup → Bool) (name : String) where
  find-select_absent :
      (rows : List DiscoveredGroup)
      → find discovered_key name rows ≡ none
      → find discovered_key name (select p rows) ≡ none
  unfolding find select
  find-select_absent [] h = refl
  find-select_absent (r ∷ rows) h = ground (arith, find-select_absent rows)

  find-select :
      (rows : List DiscoveredGroup)
      → IsKeyed discovered_key rows
      → find discovered_key name (select p rows) ≡ kept p (find discovered_key name rows)
  unfolding find select kept
  find-select [] v = refl
  find-select (r ∷ rows) v =
      ground (arith, v.0, find-select rows v.1, find-select_absent rows, eq_key r)
    where
      eq_key : (r : DiscoveredGroup) → (discovered_key r == name) ≡ true → discovered_key r ≡ name
      eq_key r = (string_eq.same_key_iff (discovered_key r) name).0

cleanup_stale-db :
    (now : ℕ) (w : World)
    → ((cleanup_stale now w).0 ≡ ok tt)
      × ((cleanup_stale now w).1.db ≡ Discovered.delete_stale stale_threshold_ms now w.db)
unfolding cleanup_stale push_discovery_update
cleanup_stale-db now w = ground arith

-- On an intact database the cleanup deletes exactly the groups that were last reported more than seven
-- days ago; every other group stays as it is, and none is added.
pub find-cleanup_stale :
    (now : ℕ) (name : String) (w : World)
    → IsIntact w.db
    → Discovered.find_by_topic_name name (cleanup_stale now w).1.db
      ≡ elim (Discovered.find_by_topic_name name w.db) [
        | none ↦ none
        | some g ↦ if ltb g.last_reported_at (now - 7 * 24 * 60 * 60 * 1000) then none else some g
      ]
unfolding Discovered.find_by_topic_name Discovered.delete_stale kept
find-cleanup_stale now name w v =
    ap (λ db. find discovered_key name db.discovered) (cleanup_stale-db now w).1
    ∙ find-select (Discovered.is_recent (Discovered.cutoff stale_threshold_ms now)) name
        w.db.discovered v.discovered
    ∙ flip (find discovered_key name w.db.discovered)
  where
    flip :
        (o : Option DiscoveredGroup)
        → kept (Discovered.is_recent (Discovered.cutoff stale_threshold_ms now)) o ≡ elim o [
          | none ↦ none
          | some g ↦ if ltb g.last_reported_at (now - stale_threshold_ms) then none else some g
        ]
    flip none = refl
    flip (some g) = ground arith
