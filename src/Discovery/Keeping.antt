-- ===== src/Discovery/Keeping.antt =====
-- discovery-service.ts: the methods and the handlers keep the database intact.
use dchat_desktop.Common.{ℕ, String, Option, none, some, List, [], ◌∷◌, ◌||◌}
use dchat_desktop.Types.{Message}
use dchat_desktop.Types.Topic.{DiscoveredGroup, AnnouncementGroup}
use dchat_desktop.Store.Intact.Rules.{Intact}
use dchat_desktop.Topic.Joining.{Network}
use dchat_desktop.Topic.Keeping.{topic_rules, ask-Intact}
use dchat_desktop.Discovery.Cache.{Files}
use dchat_desktop.Discovery.Announcing.{
  push_discovery_update, send_announcement, broadcast_known_groups, verify_one,
  verify_subscriber_counts, refresh, cleanup_stale,
}
use dchat_desktop.Discovery.Receiving.{
  RawGroup, CompactGroup, handle_announcement, handle_broadcast, seed_one, seed_bootstrap_groups,
  announce_created, store_scanned, scan_group, scan_groups, groups_in, scan_messages,
  scan_existing_announcements,
}
use dchat_desktop.Exec.{Keeps, Keeps-bind, Keeps-pure}

push_discovery_update-Intact : Keeps Intact push_discovery_update
unfolding push_discovery_update
push_discovery_update-Intact = search topic_rules depth 10

send_announcement-Intact :
    (net : Network) (own : String) (groups : List AnnouncementGroup) (now : ℕ)
    → Keeps Intact (send_announcement net own groups now)
unfolding send_announcement
send_announcement-Intact net own groups now = search (topic_rules, ask-Intact) depth 15

pub broadcast_known_groups-Intact :
    (files : Files) (net : Network) (now : ℕ) → Keeps Intact (broadcast_known_groups files net now)
unfolding broadcast_known_groups
broadcast_known_groups-Intact files net now =
    search (topic_rules, send_announcement-Intact) depth 20

verify_one-Intact :
    (net : Network) (now : ℕ) (g : DiscoveredGroup) → Keeps Intact (verify_one net now g)
unfolding verify_one
verify_one-Intact net now g = search topic_rules depth 15

pub verify_subscriber_counts-Intact :
    (net : Network) (now : ℕ) → Keeps Intact (verify_subscriber_counts net now)
unfolding verify_subscriber_counts
verify_subscriber_counts-Intact net now =
    search (topic_rules, verify_one-Intact, push_discovery_update-Intact) depth 20

pub refresh-Intact :
    (files : Files) (net : Network) (now : ℕ) → Keeps Intact (refresh files net now)
unfolding refresh
refresh-Intact files net now =
    search (topic_rules, broadcast_known_groups-Intact, verify_subscriber_counts-Intact) depth 10

pub cleanup_stale-Intact : (now : ℕ) → Keeps Intact (cleanup_stale now)
unfolding cleanup_stale
cleanup_stale-Intact now = search (topic_rules, push_discovery_update-Intact) depth 15

pub handle_announcement-Intact :
    (files : Files) (src : String) (groups : Option (List RawGroup)) (now : ℕ)
    → Keeps Intact (handle_announcement files src groups now)
unfolding handle_announcement
handle_announcement-Intact files src groups now =
    search (topic_rules, push_discovery_update-Intact) depth 20

pub handle_broadcast-Intact :
    (src : String) (groups : Option (List CompactGroup)) (now : ℕ)
    → Keeps Intact (handle_broadcast src groups now)
unfolding handle_broadcast
handle_broadcast-Intact src groups now = search (topic_rules, push_discovery_update-Intact) depth 20

seed_one-Intact : (g : DiscoveredGroup) → Keeps Intact (seed_one g)
unfolding seed_one
seed_one-Intact g = search topic_rules depth 10

pub seed_bootstrap_groups-Intact : (now : ℕ) → Keeps Intact (seed_bootstrap_groups now)
unfolding seed_bootstrap_groups
seed_bootstrap_groups-Intact now = search (topic_rules, seed_one-Intact) depth 10

pub announce_created-Intact :
    (files : Files) (net : Network) (name : String)
    → (description category avatar_uri : Option String) (now : ℕ)
    → Keeps Intact (announce_created files net name description category avatar_uri now)
unfolding announce_created
announce_created-Intact files net name description category avatar_uri now =
    search (topic_rules, broadcast_known_groups-Intact, push_discovery_update-Intact) depth 15

store_scanned-Intact :
    (files : Files) (m : Message) (g : RawGroup) (uri : Option String)
    → Keeps Intact (store_scanned files m g uri)
unfolding store_scanned
store_scanned-Intact files m g none = search topic_rules
store_scanned-Intact files m g (some uri) = search topic_rules depth 10

scan_group-Intact :
    (files : Files) (m : Message) (g : RawGroup) → Keeps Intact (scan_group files m g)
unfolding scan_group
scan_group-Intact files m g = search (topic_rules, store_scanned-Intact) depth 10

scan_groups-Intact :
    (files : Files) (m : Message) (gs : List RawGroup) → Keeps Intact (scan_groups files m gs)
unfolding scan_groups
scan_groups-Intact files m [] = search topic_rules
scan_groups-Intact files m (g ∷ gs) =
    Keeps-bind _ _ (scan_group-Intact files m g)
      (λ first. Keeps-bind _ _ (scan_groups-Intact files m gs) (λ rest. Keeps-pure (first || rest)))

scan_messages-Intact :
    (files : Files) (parse : String → Option (List RawGroup)) (ms : List Message)
    → Keeps Intact (scan_messages files parse ms)
unfolding scan_messages
scan_messages-Intact files parse [] = search topic_rules
scan_messages-Intact files parse (m ∷ ms) =
    Keeps-bind _ _ (scan_groups-Intact files m (groups_in parse m)) (λ first.
      Keeps-bind _ _ (scan_messages-Intact files parse ms) (λ rest. Keeps-pure (first || rest)))

pub scan_existing_announcements-Intact :
    (files : Files) (parse : String → Option (List RawGroup))
    → Keeps Intact (scan_existing_announcements files parse)
unfolding scan_existing_announcements
scan_existing_announcements-Intact files parse =
    search (topic_rules, scan_messages-Intact, push_discovery_update-Intact) depth 10
