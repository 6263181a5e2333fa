-- ===== src/Discovery/Announcing.antt =====
-- discovery-service.ts: what this client knows of groups, shows of them, and announces.
use dchat_desktop.Common.{
  ℕ, ◌*◌, String, Bool, false, not, Option, none, some, List, [], ◌∷◌, map, select, take, length,
  ltb, nat_eq, contains, string_eq, ◌==◌, if◌then◌else◌,
}
use dchat_desktop.Common.Text.{truthy}
use dchat_desktop.Types.Topic.{Topic, DiscoveredGroup, AnnouncementGroup, Avatar}
use dchat_desktop.Types.Wire.{announcement}
use dchat_desktop.Table.{find}
use dchat_desktop.Store.Db.{Db, is_some, discovered_key}
use dchat_desktop.Store.Topics
use dchat_desktop.Store.Discovered
use dchat_desktop.Topic.Session.{is_other}
use dchat_desktop.Topic.Joining.{Network, gen_topic_hash, ask}
use dchat_desktop.Discovery.Cache.{Files, read_cached_avatar}
use dchat_desktop.Exec.{
  Exec, ◌>>=◌, ◌>>◌, gets, modify, push, when, with_some, swallow, for_each, my_address,
  send_to_multiple, on_discovery_update,
}

abbrev pub discovery_topic : String
discovery_topic = "publicGroups"

abbrev pub max_broadcast_groups : ℕ
max_broadcast_groups = 50

abbrev pub stale_threshold_ms : ℕ
stale_threshold_ms = 7 * 24 * 60 * 60 * 1000

abbrev pub is_joined : List String → DiscoveredGroup → DiscoveredGroup
is_joined names g = record g { joined = some (contains names g.topic_name) }

unfoldable pub get_discovered_groups : List String → Db → List DiscoveredGroup
get_discovered_groups names db = map (is_joined names) (Discovered.find_all db)

unfoldable pub push_discovery_update : Exec (Unit {0})
unfolding ◌>>=◌
push_discovery_update = do
  joined ← gets Topics.find_joined
  groups ← gets (get_discovered_groups (map (λ t. t.id) joined))
  push (on_discovery_update groups)

-- The JavaScript Map from a topic to its announcement, in the order in which the keys came.
abbrev pub announced_key : AnnouncementGroup → String
announced_key g = g.topic_id

unfoldable pub put : AnnouncementGroup → List AnnouncementGroup → List AnnouncementGroup
put g [] = g ∷ []
put g (x ∷ xs) = if x.topic_id == g.topic_id then g ∷ xs else x ∷ put g xs

unfoldable pub put_new : AnnouncementGroup → List AnnouncementGroup → List AnnouncementGroup
unfolding put
put_new g xs = if is_some (find announced_key g.topic_id xs) then xs else put g xs

abbrev avatar_at : Files → Option String → Option Avatar
avatar_at files none = none
avatar_at files (some uri) = if truthy (some uri) then read_cached_avatar files uri else none

abbrev uri_of : Option DiscoveredGroup → Option String
uri_of none = none
uri_of (some g) = g.avatar_uri

abbrev description_of : Option DiscoveredGroup → Option String
description_of none = none
description_of (some g) = g.description

abbrev category_of : Option DiscoveredGroup → Option String
category_of none = none
category_of (some g) = g.category

abbrev pub of_topic : Files → List DiscoveredGroup → Topic → AnnouncementGroup
of_topic files known t =
    let g = find discovered_key t.id known in
    record {
      topic_id = t.id;
      name = t.id;
      description = description_of g;
      category = category_of g;
      subscriber_count = t.member_count;
      avatar = avatar_at files (uri_of g);
    }

abbrev pub of_discovered : Files → DiscoveredGroup → AnnouncementGroup
of_discovered files g = record {
  topic_id = g.topic_name;
  name = g.topic_name;
  description = g.description;
  category = g.category;
  subscriber_count = g.subscriber_count;
  avatar = avatar_at files g.avatar_uri;
}

unfoldable pub put_topics :
    Files → List DiscoveredGroup → List Topic → List AnnouncementGroup → List AnnouncementGroup
unfolding put
put_topics files known [] xs = xs
put_topics files known (t ∷ ts) xs = put_topics files known ts (put (of_topic files known t) xs)

unfoldable pub put_discovered :
    Files → List DiscoveredGroup → List AnnouncementGroup → List AnnouncementGroup
unfolding put_new
put_discovered files [] xs = xs
put_discovered files (g ∷ gs) xs = put_discovered files gs (put_new (of_discovered files g) xs)

-- The joined topics come first, and at most fifty groups are announced.
unfoldable pub announced_groups : Files → List Topic → List DiscoveredGroup → List AnnouncementGroup
unfolding put_topics put_discovered
announced_groups files joined known =
    take max_broadcast_groups (put_discovered files known (put_topics files known joined []))

unfoldable pub send_announcement : Network → String → List AnnouncementGroup → ℕ → Exec (Unit {0})
unfolding ◌>>=◌ when ask gen_topic_hash
send_announcement net own groups now = do
  subscribers ← ask (net.subscribers (gen_topic_hash net.sha1 discovery_topic))
  let dests = select (is_other own) subscribers
  when (ltb 0 (length dests)) (send_to_multiple dests (announcement own groups now))

unfoldable pub broadcast_known_groups : Files → Network → ℕ → Exec (Unit {0})
unfolding ◌>>=◌ when with_some swallow send_announcement
broadcast_known_groups files net now = do
  me ← my_address
  with_some me λ own. do
    joined ← gets Topics.find_joined
    known ← gets Discovered.find_all
    let groups = announced_groups files joined known
    when (ltb 0 (length groups)) (swallow (send_announcement net own groups now))

-- `verifySubscriberCounts`: a group whose count the network does not give is skipped.
abbrev pub has_other_count : Network → DiscoveredGroup → Bool
has_other_count net g = elim (net.subscribers_count (gen_topic_hash net.sha1 g.topic_name)) [
  | none ↦ false
  | some count ↦ not (nat_eq count g.subscriber_count)
]

unfoldable pub verify_one : Network → ℕ → DiscoveredGroup → Exec (Unit {0})
unfolding ◌>>=◌ when with_some gen_topic_hash
verify_one net now g =
    with_some (net.subscribers_count (gen_topic_hash net.sha1 g.topic_name)) λ count.
      when (not (nat_eq count g.subscriber_count))
        (modify (Discovered.update_subscriber_count g.topic_name count now))

abbrev pub any : (DiscoveredGroup → Bool) → List DiscoveredGroup → Bool
any p gs = ltb 0 (length (select p gs))

unfoldable pub verify_subscriber_counts : Network → ℕ → Exec (Unit {0})
unfolding ◌>>=◌ when for_each verify_one
verify_subscriber_counts net now = do
  me ← my_address
  with_some me λ own. do
    groups ← gets Discovered.find_all
    for_each groups (verify_one net now)
    when (any (has_other_count net) groups) push_discovery_update

unfoldable pub refresh : Files → Network → ℕ → Exec (Unit {0})
unfolding ◌>>=◌ broadcast_known_groups verify_subscriber_counts
refresh files net now = do broadcast_known_groups files net now; verify_subscriber_counts net now

unfoldable pub cleanup_stale : ℕ → Exec (Unit {0})
unfolding ◌>>=◌ when
cleanup_stale now = do
  removed ← gets (Discovered.stale_count stale_threshold_ms now)
  modify (Discovered.delete_stale stale_threshold_ms now)
  when (ltb 0 removed) push_discovery_update
