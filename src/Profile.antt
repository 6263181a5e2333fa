-- ===== src/Profile.antt =====
-- src/main/services/contact-profile-service.ts: clients exchange their names and avatars by version.
-- The time of the last response to each sender is passed along; the file that an avatar is saved to is
-- a parameter, none where saving fails.
pub mod Throttle
pub mod Exchange
use dchat_desktop.Common.{
  ℕ, ◌-◌, String, Bool, true, false, not, ◌&&◌, Option, none, some, List, [], ◌∷◌, ltb, ◌==◌,
  string_eq, if◌then◌else◌,
}
use dchat_desktop.Common.Text.{truthy, or_empty, ◌++◌}
use dchat_desktop.Types.{Contact, MessageData, MessageOptions}
use dchat_desktop.Types.Wire.{profile, ProfilePacket, request, header, full}
use dchat_desktop.Store.Db.{is_some}
use dchat_desktop.Store.Contacts
use dchat_desktop.Store.Sessions
use dchat_desktop.Chat.Sessions.{direct_id}
use dchat_desktop.Group.Payload.{◌or_string◌, ◌or_else◌}
use dchat_desktop.Exec.{
  Exec, ◌>>=◌, ◌>>◌, pure, gets, modify, push, when, with_some, swallow, send_no_reply,
  on_session_update, on_contact_update,
}

-- The name and the avatar of a full response; an avatar other than in base64 is none.
pub record Content : Type 0 where
  pub name : Option String
  pub first_name : Option String
  pub avatar : Option String

-- The keys of a contact message that stand beside the id, and its content.
pub record ContactMessage : Type 0 where
  pub request_type : Option String
  pub response_type : Option String
  pub version : Option String
  pub content : Option Content

-- The own profile, with its avatar in base64 if the file can be read.
pub record Own : Type 0 where
  pub nickname : String
  pub version : String
  pub avatar : Option String

-- `lastResponseAt`
abbrev pub Responses : Type 0
Responses = String → ℕ

abbrev pub no_responses : Responses
no_responses sender = 0

abbrev pub set_response : String → ℕ → Responses → Responses
set_response sender now last who = if sender == who then now else last who

-- PROFILE_RESPONSE_THROTTLE_MS
abbrev pub throttle : ℕ
throttle = 30000

unfoldable pub send_profile_request :
    (target : String) → Option String → (id : String) → ℕ → Exec (Unit {0})
unfolding ◌>>=◌ swallow
send_profile_request target version id now =
    swallow (send_no_reply target (profile id (request (version or_else "")) now))

abbrev pub remote_version : Option MessageOptions → Option String
remote_version none = none
remote_version (some o) = o.profile_version

-- `stored === remote`
abbrev pub is_version : Option String → String → Bool
is_version none remote = false
is_version (some stored) remote = stored == remote

-- `checkAndRequestProfile`
unfoldable pub check_and_request_profile :
    String → MessageData → (id : String) → ℕ → Exec (Unit {0})
unfolding ◌>>=◌ when with_some
check_and_request_profile sender d id now =
    let remote = remote_version d.options in
    when (truthy remote) do
      contact ← gets (Contacts.find_by_address sender)
      with_some contact λ c.
          when (not (is_version c.profile_version (or_empty remote)))
            (send_profile_request sender c.profile_version id now)

abbrev response : Own → String → ProfilePacket
response own request_type =
    if request_type == "header"
    then header own.version
    else full own.version own.nickname own.avatar

-- `now - lastAt < PROFILE_RESPONSE_THROTTLE_MS`, also where the clock was set back
unfoldable pub is_throttled : ℕ → ℕ → Bool
is_throttled last now = ltb (now - last) throttle

abbrev pub respond : Own → Responses → (sender request_type id : String) → ℕ → Exec Responses
respond own last sender request_type id now = do
  swallow (send_no_reply sender (profile id (response own request_type) now))
  pure (set_response sender now last)

answer : Option Contact → Own → Responses → (sender request_type id : String) → ℕ → Exec Responses
unfolding ◌>>=◌ swallow is_throttled
answer none own last sender request_type id now = pure last
answer (some c) own last sender request_type id now =
    if is_throttled (last sender) now
    then pure last
    else respond own last sender request_type id now

-- `handleProfileRequest`
unfoldable pub handle_profile_request :
    Own → Responses → (sender request_type id : String) → ℕ → Exec Responses
unfolding ◌>>=◌ answer
handle_profile_request own last sender request_type id now = do
  contact ← gets (Contacts.find_by_address sender)
  answer contact own last sender request_type id now

-- The end of `handleProfileResponse`, after the avatar has been saved.
unfoldable pub store_profile :
    (sender name : String) → (avatar : Option String) → (version : String) → ℕ → Exec (Unit {0})
unfolding ◌>>=◌ when with_some
store_profile sender name avatar version now = do
  modify (Contacts.update_profile sender name avatar version now)
  session ← gets (Sessions.find_by_id (direct_id sender))
  when (is_some session) do
    modify (Sessions.update_target_name (direct_id sender) name now)
    s ← gets (Sessions.find_by_id (direct_id sender))
    push (on_session_update s)
  updated ← gets (Contacts.find_by_address sender)
  with_some updated λ c. push (on_contact_update c)

-- The file of the new avatar, or the one that the contact has.
abbrev pub avatar_uri : Option String → (String → Option String) → Option String → Option String
avatar_uri none save old = old
avatar_uri (some base64) save old = elim (save base64) [ some file ↦ some file | none ↦ old ]

abbrev pub take_over :
    (String → Option String) → Contact → (sender version : String) → Content → ℕ → Exec (Unit {0})
take_over save c sender version content now =
    store_profile sender (content.first_name or_string content.name or_string c.name)
      (avatar_uri content.avatar save c.avatar_uri) version now

abbrev is_full : String → Bool
is_full t = t == "full"

-- `handleProfileResponse`. Where the response has an avatar, the code awaits its image before
-- `store_profile`; here nothing comes between.
unfoldable pub handle_profile_response :
    (save : String → Option String)
    → (sender : String) → (version : Option String) → (response_type : String) → Option Content
    → (id : String) → ℕ
    → Exec (Unit {0})
unfolding ◌>>=◌ when with_some
handle_profile_response save sender version response_type content id now = when (truthy version) do
  contact ← gets (Contacts.find_by_address sender)
  with_some contact λ c. when (not (is_version c.profile_version (or_empty version))) (
      if is_full response_type && is_some content
      then with_some content (λ k. take_over save c sender (or_empty version) k now)
      else send_profile_request sender c.profile_version id now)

-- `handleContactMessage`
unfoldable pub handle_contact_message :
    Own
    → (save : String → Option String) → Responses
    → (src : String) → ContactMessage
    → (id : String) → ℕ
    → Exec Responses
unfolding ◌>>=◌
handle_contact_message own save last src m id now =
    if truthy m.request_type
    then handle_profile_request own last src (or_empty m.request_type) id now
    else if truthy m.response_type
    then (handle_profile_response save src m.version (or_empty m.response_type) m.content id now
        >> pure last)
    else if not (truthy m.version)
    then handle_profile_request own last src "full" id now
    else pure last
