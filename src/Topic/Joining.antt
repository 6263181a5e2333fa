-- ===== src/Topic/Joining.antt =====
-- topic-service.ts: joining and leaving a topic, and the cached list of its subscribers; and
-- topic-hash.ts. The methods are split at each `await` of the NKN network, whose answer is a
-- parameter: none where the call throws.
use Prim.Native.Char.{code}
use Prim.Native.String.{[], ◌∷◌}
use dchat_desktop.Common.{
  ℕ, suc, String, Bool, true, not, ◌&&◌, ◌||◌, Option, none, some, List, length, ltb, leb, nat_eq,
  if◌then◌else◌,
}
use dchat_desktop.Common.Text.{◌++◌}
use dchat_desktop.Types.{topic_subscribe, topic_unsubscribe}
use dchat_desktop.Types.Topic.{Topic, TopicSubscriber}
use dchat_desktop.Types.Wire.{message}
use dchat_desktop.Store.Topics
use dchat_desktop.Store.Subscribers
use dchat_desktop.Store.Messages
use dchat_desktop.Store.Sessions
use dchat_desktop.Topic.Session.{
  topic_session, get_or_create_topic_session, other_subscribers, topic_data,
}
use dchat_desktop.Group.Owner.{throw_if}
use dchat_desktop.Exec.{
  Exec, ◌>>=◌, ◌>>◌, pure, gets, modify, attempt, push, when, with_some, swallow, my_address,
  require, send_to_multiple, on_session_delete, on_topic_update, on_topic_delete, not_connected,
  invalid_topic_name, network,
}

-- What follows the first `#`s.
strip_hashes : String → String
strip_hashes [] = []
strip_hashes (c ∷ s) = if nat_eq (code c) b'#' then strip_hashes s else c ∷ s

-- The name under which a topic is known to the network, in the convention of nMobile.
unfoldable pub gen_topic_hash : (sha1 : String → String) → String → String
unfolding strip_hashes
gen_topic_hash sha1 name = "dchat" ++ sha1 (strip_hashes name)

size : String → ℕ
size [] = 0
size (c ∷ s) = suc (size s)

all_characters : (ℕ → Bool) → String → Bool
all_characters p [] = true
all_characters p (c ∷ s) = p (code c) && all_characters p s

-- TOPIC_NAME_REGEX; the letters and digits of Unicode are a parameter.
unfoldable pub is_topic_name : (letter_or_number : ℕ → Bool) → String → Bool
unfolding size all_characters
is_topic_name letter_or_number name =
    ltb 0 (size name)
    && leb (size name) 64
    && all_characters (λ c. letter_or_number c || nat_eq c b'_' || nat_eq c b'-') name

-- What the NKN network answers: to a subscription and its end whether it was taken, to a question the addresses.
pub record Network : Type 0 where
  pub letter_or_number : ℕ → Bool
  pub sha1 : String → String
  pub subscribe : String → Option String
  pub unsubscribe : String → Option String
  pub subscribers : String → Option (List String)
  pub subscribers_count : String → Option ℕ

abbrev pub joined_topic : String → ℕ → Topic
joined_topic name now = record {
  id = name;
  joined = true;
  subscribe_at = some now;
  expire_block_height = none;
  member_count = 0;
  created_at = now;
  updated_at = now;
}

-- A call of the NKN client: not connected, it throws; so does the network.
unfoldable pub ask : {A : Type 0} → Option A → Exec A
unfolding ◌>>=◌
ask answer = do address ← my_address; own ← require address not_connected; require answer network

-- `createAndJoin` up to the subscription.
unfoldable pub begin_join : (ℕ → Bool) → String → Exec String
unfolding ◌>>=◌ throw_if is_topic_name
begin_join letter_or_number name = do
  throw_if (not (is_topic_name letter_or_number name)) invalid_topic_name
  address ← my_address
  require address not_connected

unfoldable pub store_topic : String → ℕ → Exec (Unit {0})
unfolding ◌>>=◌
store_topic name now = do
  modify (Topics.upsert (joined_topic name now))
  get_or_create_topic_session name now

-- `refreshSubscribers`, once the addresses are there.
unfoldable pub store_subscribers : String → List String → ℕ → Exec (Unit {0})
unfolding ◌>>=◌
store_subscribers name addresses now = do
  attempt (Subscribers.replace_all name addresses now)
  modify (Topics.set_member_count name (length addresses) now)

-- From the subscribers on: tell the others, and show the topic.
unfoldable pub announce_join : (name own id : String) → (joined_at : ℕ) → Exec (Option Topic)
unfolding ◌>>=◌ when
announce_join name own id joined_at = do
  dests ← gets (other_subscribers name own)
  when (ltb 0 (length dests))
      (send_to_multiple dests (message (topic_data name topic_subscribe id joined_at)))
  updated ← gets (Topics.find_by_id name)
  push (on_topic_update updated)
  pure updated

-- `joined_at` is the time after the subscription, `now` the time after the subscribers came.
unfoldable pub create_and_join :
    Network → (name id : String) → (joined_at now : ℕ) → Exec (Option Topic)
unfolding ◌>>=◌
create_and_join net name id joined_at now = do
  own ← begin_join net.letter_or_number name
  receipt ← ask (net.subscribe (gen_topic_hash net.sha1 name))
  store_topic name joined_at
  addresses ← ask (net.subscribers (gen_topic_hash net.sha1 name))
  store_subscribers name addresses now
  announce_join name own id joined_at

unfoldable pub refresh_subscribers : Network → String → ℕ → Exec (List String)
unfolding ◌>>=◌ ask store_subscribers gen_topic_hash
refresh_subscribers net name now = do
  addresses ← ask (net.subscribers (gen_topic_hash net.sha1 name))
  store_subscribers name addresses now
  pure addresses

-- `leave` up to the unsubscription, and what follows it, whether it throws or not.
unfoldable pub begin_leave : (name id : String) → ℕ → Exec (Unit {0})
unfolding ◌>>=◌ when
begin_leave name id now = do
  address ← my_address
  own ← require address not_connected
  dests ← gets (other_subscribers name own)
  when (ltb 0 (length dests))
      (send_to_multiple dests (message (topic_data name topic_unsubscribe id now)))

unfoldable pub finish_leave : String → Exec (Unit {0})
unfolding ◌>>=◌
finish_leave name = do
  modify (Subscribers.delete_by_topic_id name)
  modify (Messages.delete_by_session_id (topic_session name))
  modify (Sessions.delete_by_id (topic_session name))
  modify (Topics.delete_by_id name)
  push (on_session_delete (topic_session name))
  push (on_topic_delete name)

-- The unsubscription: what it throws is caught.
unfoldable pub unsubscribe : Network → String → Exec (Unit {0})
unfolding ◌>>=◌ swallow ask gen_topic_hash
unsubscribe net name =
    swallow (do receipt ← ask (net.unsubscribe (gen_topic_hash net.sha1 name)); pure tt)

unfoldable pub leave : Network → (name id : String) → ℕ → Exec (Unit {0})
unfolding ◌>>=◌ begin_leave unsubscribe finish_leave
leave net name id now = do begin_leave name id now; unsubscribe net name; finish_leave name

-- Whether the count differs from the cached list.
abbrev pub has_drifted : ℕ → Topic → Bool
has_drifted count t = not (nat_eq t.member_count count)

unfoldable pub show_topic : String → Exec (Unit {0})
unfolding ◌>>=◌ with_some
show_topic name = do
  updated ← gets (Topics.find_by_id name)
  with_some updated λ u. push (on_topic_update (some u))

unfoldable pub resync : String → ℕ → ℕ → Topic → Exec (Unit {0})
unfolding ◌>>=◌ when show_topic
resync name count now t =
    when (has_drifted count t) (modify (Topics.set_member_count name count now) >> show_topic name)

unfoldable pub get_subscribers : String → ℕ → Exec (List TopicSubscriber)
unfolding ◌>>=◌ with_some resync
get_subscribers name now = do
  subs ← gets (Subscribers.find_by_topic_id name)
  found ← gets (Topics.find_by_id name)
  with_some found (resync name (length subs) now)
  pure subs
