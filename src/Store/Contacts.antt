-- ===== src/Store/Contacts.antt =====
-- contact-repository.ts
use dchat_desktop.Common.{ℕ, String, Option, some, string_eq}
use dchat_desktop.Types.{Contact}
use dchat_desktop.Table.{find, update, delete}
use dchat_desktop.Table
use dchat_desktop.Store.Db.{Db, contact_key}

-- `x ?? 0`
abbrev pub or_zero : Option ℕ → ℕ
or_zero (some n) = n
or_zero _ = 0

abbrev pub row_of : Contact → Contact
row_of c = record c {
  burn_after_seconds = some (or_zero c.burn_after_seconds);
  burn_update_at = some (or_zero c.burn_update_at);
}

abbrev pub merge : Contact → Contact → Contact
merge excluded c = record excluded { address = c.address; created_at = c.created_at }

unfoldable pub upsert : Contact → Db → Db
upsert c db = record db { contacts = Table.upsert contact_key merge (row_of c) db.contacts }

unfoldable pub set_row : String → (Contact → Contact) → Db → Db
set_row address f db = record db { contacts = update contact_key address f db.contacts }

unfoldable pub update_profile : String → String → Option String → String → ℕ → Db → Db
update_profile address name avatar_uri profile_version now db =
    set_row address
      (λ c. record c {
        name = name;
        avatar_uri = avatar_uri;
        profile_version = some profile_version;
        updated_at = now;
      })
      db

unfoldable pub find_by_address : String → Db → Option Contact
find_by_address address db = find contact_key address db.contacts

unfoldable pub update_burn_options : String → ℕ → ℕ → ℕ → Db → Db
update_burn_options address seconds at now db =
    set_row address
      (λ c. record c {
        burn_after_seconds = some seconds;
        burn_update_at = some at;
        updated_at = now;
      })
      db

unfoldable pub delete_by_address : String → Db → Db
delete_by_address address db = record db { contacts = delete contact_key address db.contacts }
