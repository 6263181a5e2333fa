-- ===== src/Profile/Exchange.antt =====
-- What a full response leaves.
use dchat_desktop.Common.{
  ℕ, String, true, false, Option, none, some, ap, Option-cases, inl, inr, ◌≡◌, refl, arith,
  beq_self, string_eq,
}
use dchat_desktop.Common.Text.{truthy}
use dchat_desktop.Table.{find-update}
use dchat_desktop.Types.{Contact, MessageData}
use dchat_desktop.Store.Db.{contact_key}
use dchat_desktop.Store.Contacts
use dchat_desktop.Store.Sessions
use dchat_desktop.Group.Payload.{◌or_string◌}
use dchat_desktop.Profile.{
  Content, store_profile, handle_profile_response, check_and_request_profile, is_version,
  avatar_uri, remote_version, take_over,
}
use dchat_desktop.Exec.{World, ok, pure}

contacts-store_profile :
    (sender name : String) (avatar : Option String) (version : String) (now : ℕ) (w : World)
    → (store_profile sender name avatar version now w).1.db.contacts
      ≡ (Contacts.update_profile sender name avatar version now w.db).contacts
unfolding store_profile Contacts.update_profile Contacts.set_row Sessions.update_target_name
    Sessions.set_row
contacts-store_profile sender name avatar version now w = ground arith

-- A new avatar that was saved takes the place of the old one; without one, or where saving fails, the
-- old one stays.
abbrev pub newest_avatar : (new saved old : Option String) → Option String
newest_avatar (some base64) (some file) old = some file
newest_avatar (some base64) none old = old
newest_avatar none saved old = old

abbrev pub saved_file : (String → Option String) → Option String → Option String
saved_file save none = none
saved_file save (some base64) = save base64

-- The contact as the response describes it.
abbrev pub updated_contact :
    (String → Option String) → Contact → (version : String) → Content → ℕ → Contact
updated_contact save c version k now = record c {
  name = k.first_name or_string k.name or_string c.name;
  avatar_uri = newest_avatar k.avatar (saved_file save k.avatar) c.avatar_uri;
  profile_version = some version;
  updated_at = now;
}

avatar_uri-newest :
    (save : String → Option String) (new old : Option String)
    → avatar_uri new save old ≡ newest_avatar new (saved_file save new) old
avatar_uri-newest save none old = refl
avatar_uri-newest save (some base64) old = elim (Option-cases (save base64)) [
  | inl e ↦ ground (arith, e)
  | inr (file, e) ↦ ground (arith, e)
]

module _ (save : String → Option String) (sender version id : String) (now : ℕ) where
  handle_profile_response-take_over :
      (c : Contact) (k : Content) (w : World)
      → truthy (some version) ≡ true
      → Contacts.find_by_address sender w.db ≡ some c
      → is_version c.profile_version version ≡ false
      → handle_profile_response save sender (some version) "full" (some k) id now w
        ≡ take_over save c sender version k now w
  unfolding handle_profile_response
  handle_profile_response-take_over c k w named known old = rw (named, known, old) refl

  -- A contact that has the version is not asked again.
  check_and_request_profile-known :
      (c : Contact) (d : MessageData) (fresh_id : String) (later : ℕ) (w : World)
      → truthy (some version) ≡ true
      → Contacts.find_by_address sender w.db ≡ some c
      → c.profile_version ≡ some version
      → remote_version d.options ≡ some version
      → check_and_request_profile sender d fresh_id later w ≡ (ok tt, w)
  unfolding check_and_request_profile pure
  check_and_request_profile-known c d fresh_id later w named known has says =
      rw (says, named, known, has, beq_self version) refl

  find-updated :
      (c : Contact) (k : Content) (w : World)
      → Contacts.find_by_address sender w.db ≡ some c
      → Contacts.find_by_address sender (take_over save c sender version k now w).1.db
        ≡ some (updated_contact save c version k now)
  unfolding Contacts.find_by_address Contacts.update_profile Contacts.set_row
  find-updated c k w known =
      let name = k.first_name or_string k.name or_string c.name in
      let avatar = avatar_uri k.avatar save c.avatar_uri in
      rw
        (
          contacts-store_profile sender name avatar version now w,
          find-update contact_key sender sender
              (λ c. record c {
                name = name;
                avatar_uri = avatar;
                profile_version = some version;
                updated_at = now;
              })
              w.db.contacts (λ c. refl),
          beq_self sender,
          known,
        )
        (ap
          (λ uri. some (record c {
            name = name;
            avatar_uri = uri;
            profile_version = some version;
            updated_at = now;
          }))
          (avatar_uri-newest save k.avatar c.avatar_uri))

  -- A full response of a new version from a known contact is taken over: the contact has its name, its
  -- version, and its avatar if it has one that can be saved, else the old avatar, and a message that names the same version does not make the client ask
  -- again.
  pub handle_profile_response-settles :
      (c : Contact) (k : Content) (d : MessageData) (fresh_id : String) (later : ℕ) (w : World)
      → truthy (some version) ≡ true
      → Contacts.find_by_address sender w.db ≡ some c
      → is_version c.profile_version version ≡ false
      → remote_version d.options ≡ some version
      → let after =
          (handle_profile_response save sender (some version) "full" (some k) id now w).1 in
        (Contacts.find_by_address sender after.db ≡ some (updated_contact save c version k now))
        × (check_and_request_profile sender d fresh_id later after ≡ (ok tt, after))
  handle_profile_response-settles c k d fresh_id later w named known old says =
      let found = find-updated c k w known in
      rw (handle_profile_response-take_over c k w named known old) (
        found,
        check_and_request_profile-known (updated_contact save c version k now) d fresh_id later _
            named found refl says,
      )
