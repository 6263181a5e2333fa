-- ===== src/Discovery/Receiving.antt =====
-- discovery-service.ts: the groups that others announce, the ones that are known from the start, and a
-- group that the user announces.
use dchat_desktop.Common.{
  ℕ, String, Bool, true, false, not, ◌&&◌, ◌||◌, Option, none, some, List, [], ◌∷◌, select, length,
  leb, ltb, if◌then◌else◌,
}
use dchat_desktop.Common.Text.{◌++◌, truthy, or_empty}
use dchat_desktop.Types.{Message, ContentType, text, text_extension}
use dchat_desktop.Types.Topic.{DiscoveredGroup}
use dchat_desktop.Store.Db.{is_some}
use dchat_desktop.Store.Discovered
use dchat_desktop.Store.Messages
use dchat_desktop.Topic.Session.{topic_session}
use dchat_desktop.Topic.Joining.{Network, create_and_join}
use dchat_desktop.Group.Payload.{◌or_else◌}
use dchat_desktop.Discovery.Cache.{Files, utf16_length, cache_avatar, safe_name}
use dchat_desktop.Discovery.Announcing.{
  discovery_topic, push_discovery_update, broadcast_known_groups,
}
use dchat_desktop.Exec.{
  Exec, ◌>>=◌, ◌>>◌, pure, gets, modify, when, with_some, for_each, my_address,
}

-- An entry of an announcement as it is parsed: any field may be missing.
pub record RawAvatar : Type 0 where
  pub base64 : Option String
  pub ext : Option String

pub record RawGroup : Type 0 where
  pub topic_id : Option String
  pub name : Option String
  pub description : Option String
  pub category : Option String
  pub subscriber_count : Option ℕ
  pub avatar : Option RawAvatar

-- An entry of the older, compact broadcast.
pub record CompactGroup : Type 0 where
  pub n : Option String
  pub d : Option String
  pub c : Option String
  pub s : Option ℕ

abbrev pub is_valid_name : Option String → Bool
is_valid_name name = truthy name && leb (utf16_length (or_empty name)) 64

abbrev pub or_name : Option String → Option String → Option String
or_name (some d) name = some d
or_name none name = name

abbrev pub discovered :
    (name : String)
    → (description category : Option String) → (count : Option ℕ) → (reported_by : String)
    → (reported_at : ℕ) → (avatar_uri : Option String) → DiscoveredGroup
discovered name description category count reported_by reported_at avatar_uri = record {
  topic_name = name;
  description = description;
  category = category;
  subscriber_count = count or_else 0;
  reported_by = reported_by;
  last_reported_at = reported_at;
  last_verified_at = none;
  avatar_uri = avatar_uri;
  joined = none;
}

abbrev cached : Files → String → Option RawAvatar → Option String
cached files topic_id none = none
cached files topic_id (some a) =
    if truthy a.base64 && truthy a.ext
    then cache_avatar files topic_id (or_empty a.base64) (or_empty a.ext)
    else none

abbrev pub announced_group : Files → (src : String) → (now : ℕ) → RawGroup → DiscoveredGroup
announced_group files src now g =
    discovered (or_empty g.topic_id) (or_name g.description g.name) g.category g.subscriber_count
      src now (cached files (or_empty g.topic_id) g.avatar)

abbrev pub accepted_groups : List RawGroup → List RawGroup
accepted_groups gs = select (λ g. is_valid_name g.topic_id) gs

-- `groups` is none where the announcement has no such array.
unfoldable pub handle_announcement : Files → String → Option (List RawGroup) → ℕ → Exec (Unit {0})
unfolding ◌>>=◌ when with_some for_each
handle_announcement files src groups now = with_some groups λ gs. do
  for_each (accepted_groups gs) λ g. modify (Discovered.upsert (announced_group files src now g))
  when (ltb 0 (length (accepted_groups gs))) push_discovery_update

abbrev pub accepted_compact : List CompactGroup → List CompactGroup
accepted_compact gs = select (λ g. is_valid_name g.n) gs

abbrev pub compact_group : (src : String) → (now : ℕ) → CompactGroup → DiscoveredGroup
compact_group src now g = discovered (or_empty g.n) g.d g.c g.s src now none

unfoldable pub handle_broadcast : String → Option (List CompactGroup) → ℕ → Exec (Unit {0})
unfolding ◌>>=◌ when with_some for_each
handle_broadcast src groups now = with_some groups λ gs. do
  for_each (accepted_compact gs) λ g. modify (Discovered.upsert (compact_group src now g))
  when (ltb 0 (length (accepted_compact gs))) push_discovery_update

abbrev seed : (name description category : String) → ℕ → DiscoveredGroup
seed name description category now =
    discovered name (some description) (some category) (some 0) "bootstrap" now none

-- SEED_GROUPS
abbrev pub seed_groups : ℕ → List DiscoveredGroup
seed_groups now =
    seed "d-chat" "D-Chat community group" "Community" now
    ∷ seed "nkn" "NKN general discussion" "Community" now
    ∷ seed "general" "General chat" "General" now
    ∷ seed "nMobile" "nMobile app discussion" "Community" now
    ∷ seed "nkn-chat" "NKN chat community" "Community" now
    ∷ seed "中文" "Chinese language group" "General" now
    ∷ []

unfoldable pub seed_one : DiscoveredGroup → Exec (Unit {0})
unfolding ◌>>=◌ when
seed_one g = do
  existing ← gets (Discovered.find_by_topic_name g.topic_name)
  when (not (is_some existing)) (modify (Discovered.upsert g))

unfoldable pub seed_bootstrap_groups : ℕ → Exec (Unit {0})
unfolding ◌>>=◌ for_each seed_one
seed_bootstrap_groups now = for_each (seed_groups now) seed_one

-- `createAndBroadcastGroup`, once the topic is joined: `avatar_uri` is the file that the image library
-- wrote, none where there is no picture or it failed.
abbrev or_self : Option String → String
or_self none = "self"
or_self (some a) = a

unfoldable pub announce_created :
    Files
    → Network
    → (name : String) → (description category avatar_uri : Option String) → ℕ
    → Exec (Unit {0})
unfolding ◌>>=◌ broadcast_known_groups
announce_created files net name description category avatar_uri now = do
  me ← my_address
  modify (
      Discovered.upsert (discovered name description category (some 1) (or_self me) now avatar_uri))
  broadcast_known_groups files net now
  push_discovery_update

abbrev pub avatar_file_of : String → Bool → Option String
avatar_file_of name written = if written then some (safe_name name ++ ".jpeg") else none

-- The whole method, once the topic service is set.
unfoldable pub create_and_broadcast_group :
    Files
    → Network
    → (name id : String) → (description category : Option String) → (avatar_written : Bool)
    → (joined_at now : ℕ) → Exec (Unit {0})
unfolding ◌>>=◌ create_and_join announce_created
create_and_broadcast_group files net name id description category avatar_written joined_at now = do
  t ← create_and_join net name id joined_at now
  announce_created files net name description category (avatar_file_of name avatar_written) now

abbrev is_texty : ContentType → Bool
is_texty text = true
is_texty text_extension = true
is_texty _ = false

abbrev has_picture : Option RawAvatar → Bool
has_picture none = false
has_picture (some a) = truthy a.base64 && truthy a.ext

abbrev has_file : Files → Option DiscoveredGroup → Bool
has_file files none = false
has_file files (some g) = truthy g.avatar_uri && files.exists (or_empty g.avatar_uri)

unfoldable pub store_scanned : Files → Message → RawGroup → Option String → Exec Bool
unfolding ◌>>=◌
store_scanned files m g none = pure false
store_scanned files m g (some uri) = do
  modify (Discovered.upsert (announced_group files m.sender m.created_at g))
  pure true

-- Whether an avatar was cached and its group stored, for one entry of a stored announcement.
unfoldable pub scan_group : Files → Message → RawGroup → Exec Bool
unfolding ◌>>=◌ store_scanned
scan_group files m g = do
  existing ← gets (Discovered.find_by_topic_name (or_empty g.topic_id))
  if truthy g.topic_id && has_picture g.avatar && not (has_file files existing)
      then store_scanned files m g (cached files (or_empty g.topic_id) g.avatar)
      else pure false

unfoldable pub scan_groups : Files → Message → List RawGroup → Exec Bool
unfolding ◌>>=◌ scan_group
scan_groups files m [] = pure false
scan_groups files m (g ∷ gs) = do
  first ← scan_group files m g
  rest ← scan_groups files m gs
  pure (first || rest)

abbrev no_groups : Option (List RawGroup) → List RawGroup
no_groups none = []
no_groups (some gs) = gs

abbrev pub groups_in : (String → Option (List RawGroup)) → Message → List RawGroup
groups_in parse m =
    if is_texty m.content_type && truthy (some m.content) then no_groups (parse m.content) else []

-- `parse` finds the announcement in a text, in base64 or in plain JSON.
unfoldable pub scan_messages : Files → (String → Option (List RawGroup)) → List Message → Exec Bool
unfolding ◌>>=◌ scan_groups
scan_messages files parse [] = pure false
scan_messages files parse (m ∷ ms) = do
  first ← scan_groups files m (groups_in parse m)
  rest ← scan_messages files parse ms
  pure (first || rest)

unfoldable pub scan_existing_announcements :
    Files → (String → Option (List RawGroup)) → Exec (Unit {0})
unfolding ◌>>=◌ when scan_messages
scan_existing_announcements files parse = do
  ms ← gets (Messages.find_by_session_id (topic_session discovery_topic) 500 0)
  any ← scan_messages files parse ms
  when any push_discovery_update
