-- ===== src/Chat/Burn/Options.antt =====
-- The burn setting of a contact: the newest setting wins, in whatever order the two sides' messages
-- arrive.
use mathlib.Core.Option
use dchat_desktop.Common.{
  ℕ, String, true, false, Option, none, some, List, ◌≡◌, ◌≢◌, refl, sym, ap, ◌∙◌, arith, string_eq,
  if◌then◌else◌, ltb, Bool-cases, inl, inr, eq_of_some,
}
use text.Mathlib.TextEquality.{eq_iff}
use dchat_desktop.Types.{Message, Session, Contact}
use dchat_desktop.Types.Wire.{BurnOptions}
use dchat_desktop.Table.{find, find-update}
use dchat_desktop.Store.Db.{contact_key}
use dchat_desktop.Store.Messages
use dchat_desktop.Store.Sessions
use dchat_desktop.Store.Contacts
use dchat_desktop.Store.Contacts.{or_zero}
use dchat_desktop.Exec.{
  World, IsQuiet, Keeps, modify, attempt, Keeps-modify, Keeps-attempt, keeps_rules, when, swallow,
  caught, Result, ok, err, Exec, ◌>>=◌,
}
use dchat_desktop.Chat.Sessions.{get_or_create_session}
use dchat_desktop.Chat.Sessions.Keeping.{get_or_create_session-Keeps}
use dchat_desktop.Chat.Burn.{
  is_stale, apply_burn, store_burn, note_burn, push_contact, handle_contact_options,
}

-- The contacts are `rows`.
record HasContacts (rows : List Contact) (w : World) : Type 0 where
  same : w.db.contacts ≡ rows

module _ (rows : List Contact) where
  HasContacts-IsQuiet : IsQuiet (HasContacts rows)
  HasContacts-IsQuiet = record {
    sending = λ w s h. record { same = h.same };
    pushing = λ w s h. record { same = h.same };
    starting = λ w s h. record { same = h.same };
  }

  insert-HasContacts : (m : Message) → Keeps (HasContacts rows) (attempt (Messages.insert m))
  unfolding Messages.insert
  insert-HasContacts m = Keeps-attempt _ λ w db h e. record { same = ground (arith, h.same) }

  move-HasContacts :
      (old new : String) (now : ℕ)
      → Keeps (HasContacts rows) (attempt (Messages.update_session_id old new now))
  unfolding Messages.update_session_id
  move-HasContacts old new now =
      Keeps-attempt _ λ w db h e. record { same = ground (arith, h.same) }

  delete-HasContacts : (id : String) → Keeps (HasContacts rows) (modify (Sessions.delete_by_id id))
  unfolding Sessions.delete_by_id
  delete-HasContacts id = Keeps-modify _ λ w h. record { same = h.same }

  upsert-HasContacts : (s : Session) → Keeps (HasContacts rows) (modify (Sessions.upsert s))
  unfolding Sessions.upsert
  upsert-HasContacts s = Keeps-modify _ λ w h. record { same = h.same }

ruleset contact_rules = (
  HasContacts-IsQuiet, insert-HasContacts, move-HasContacts, delete-HasContacts, upsert-HasContacts,
)

session-HasContacts :
    (rows : List Contact) (target : String) (now : ℕ)
    → Keeps (HasContacts rows) (get_or_create_session target now)
session-HasContacts rows =
    get_or_create_session-Keeps (move-HasContacts rows) (delete-HasContacts rows)
      (upsert-HasContacts rows)

note_burn-HasContacts :
    (rows : List Contact) (src : String) (seconds : ℕ) (id : String) (now : ℕ)
    → Keeps (HasContacts rows) (note_burn src seconds id now)
unfolding note_burn
note_burn-HasContacts rows src seconds id now =
    search (keeps_rules, contact_rules, session-HasContacts) depth 20

-- A burn setting: the seconds, and when it was made.
abbrev pub setting : Contact → ℕ × ℕ
setting c = (or_zero c.burn_after_seconds, or_zero c.burn_update_at)

abbrev pub newest : BurnOptions → ℕ × ℕ → ℕ × ℕ
newest o (seconds, at) =
    if ltb at o.update_burn_after_at
    then (o.delete_after_seconds, o.update_burn_after_at)
    else (seconds, at)

abbrev pub setting_of : String → World → Option (ℕ × ℕ)
setting_of src w = Option.map setting (Contacts.find_by_address src w.db)

contacts-store_burn :
    (src : String) (o : BurnOptions) (id : String) (now : ℕ) (w : World)
    → (store_burn src o id now w).1.db.contacts
      ≡ (Contacts.update_burn_options src o.delete_after_seconds o.update_burn_after_at now
          w.db).contacts
unfolding store_burn
contacts-store_burn src o id now w = (rest.at w' (record { same = refl })).same
  where
    w' : World
    w' = record w {
      db = Contacts.update_burn_options src o.delete_after_seconds o.update_burn_after_at now w.db;
    }

    rest :
        Keeps
          (HasContacts w'.db.contacts)
          (push_contact src >>= λ _. note_burn src o.delete_after_seconds id now)
    rest = search (keeps_rules, contact_rules, note_burn-HasContacts) depth 20

setting-store_burn :
    (src : String) (o : BurnOptions) (id : String) (now : ℕ) (w : World) (c : Contact)
    → Contacts.find_by_address src w.db ≡ some c
    → setting_of src (store_burn src o id now w).1
      ≡ some (o.delete_after_seconds, o.update_burn_after_at)
unfolding Contacts.find_by_address Contacts.update_burn_options Contacts.set_row
setting-store_burn src o id now w c e =
    ap (λ rows. Option.map setting (find contact_key src rows)) (contacts-store_burn src o id now w)
    ∙ ground (
      arith,
      find-update contact_key src src
          (λ x. record x {
            burn_after_seconds = some o.delete_after_seconds;
            burn_update_at = some o.update_burn_after_at;
            updated_at = now;
          })
          w.db.contacts (λ r. refl),
      eq_iff src src,
    )

apply_burn-fresh :
    (src : String) (o : BurnOptions) (id : String) (now : ℕ) (w : World) (c : Contact)
    → o.option_type ≡ 0
    → Contacts.find_by_address src w.db ≡ some c
    → ltb (or_zero c.burn_update_at) o.update_burn_after_at ≡ true
    → apply_burn src o id now w ≡ store_burn src o id now w
unfolding apply_burn
apply_burn-fresh src o id now w c t e h =
    let stale : is_stale (some c) o.update_burn_after_at ≡ false = ground arith in
    rw (t, e, stale, apply_burn, when)

apply_burn-stale :
    (src : String) (o : BurnOptions) (id : String) (now : ℕ) (w : World) (c : Contact)
    → o.option_type ≡ 0
    → Contacts.find_by_address src w.db ≡ some c
    → ltb (or_zero c.burn_update_at) o.update_burn_after_at ≡ false
    → apply_burn src o id now w ≡ (ok tt, w)
unfolding apply_burn
apply_burn-stale src o id now w c t e h =
    let stale : is_stale (some c) o.update_burn_after_at ≡ true = ground arith in
    rw (t, e, stale, apply_burn, when)

setting-apply_burn :
    (src : String) (o : BurnOptions) (id : String) (now : ℕ) (w : World) (c : Contact)
    → o.option_type ≡ 0
    → Contacts.find_by_address src w.db ≡ some c
    → setting_of src (apply_burn src o id now w).1 ≡ some (newest o (setting c))
setting-apply_burn src o id now w c t e =
    elim (Bool-cases (ltb (or_zero c.burn_update_at) o.update_burn_after_at)) [
      | inl h ↦
          rw (apply_burn-fresh src o id now w c t e h, h) (setting-store_burn src o id now w c e)
      | inr h ↦ rw (apply_burn-stale src o id now w c t e h, h, e)
    ]

world-swallow : (m : Exec (Unit {0})) (w : World) → (swallow m w).1 ≡ (m w).1
unfolding swallow
world-swallow m w = go (m w).0
  where
    go : (r : Result (Unit {0})) → (caught (r, (m w).1)).1 ≡ (m w).1
    go (ok a) = refl
    go (err x) = refl

-- `contactOptions` of a known contact: afterwards its burn setting is the newer one of the stored and
-- the received, by their times; the stored one stays on a tie.
pub setting-handle_contact_options :
    (src : String) (o : BurnOptions) (id : String) (now : ℕ) (w : World) (c : Contact)
    → o.option_type ≡ 0
    → Contacts.find_by_address src w.db ≡ some c
    → setting_of src (handle_contact_options src (some o) id now w).1 ≡ some (newest o (setting c))
unfolding handle_contact_options
setting-handle_contact_options src o id now w c t e =
    ap (setting_of src) (world-swallow (apply_burn src o id now) w)
    ∙ setting-apply_burn src o id now w c t e

contact_after :
    (src : String) (w : World) (p : ℕ × ℕ)
    → setting_of src w ≡ some p
    → (c : Contact) × (Contacts.find_by_address src w.db ≡ some c) × (setting c ≡ p)
contact_after src w p h = go (Contacts.find_by_address src w.db) h
  where
    go :
        (o : Option Contact)
        → Option.map setting o ≡ some p
        → (c : Contact) × (o ≡ some c) × (setting c ≡ p)
    go none h = cc
    go (some c) h = (c, refl, eq_of_some _ _ h)

twice :
    (src : String) (o o' : BurnOptions) (id id' : String) (now now' : ℕ) (w : World) (c : Contact)
    → o.option_type ≡ 0
    → o'.option_type ≡ 0
    → Contacts.find_by_address src w.db ≡ some c
    → setting_of src
        (handle_contact_options src
          (some o')
          id'
          now'
          (handle_contact_options src (some o) id now w).1).1
      ≡ some (newest o' (newest o (setting c)))
twice src o o' id id' now now' w c t t' e =
    let w' = (handle_contact_options src (some o) id now w).1 in
    let (c', e', same) =
      contact_after src w' _ (setting-handle_contact_options src o id now w c t e) in
    setting-handle_contact_options src o' id' now' w' c' t' e' ∙ ap (λ p. some (newest o' p)) same

newest_comm :
    (o o' : BurnOptions) (p : ℕ × ℕ)
    → o.update_burn_after_at ≢ o'.update_burn_after_at
    → newest o' (newest o p) ≡ newest o (newest o' p)
newest_comm o o' (seconds, at) h = ground arith

-- Two settings of a contact with different times leave the same setting in whichever order they
-- arrive.
pub handle_contact_options_comm :
    (src : String) (o o' : BurnOptions) (id id' : String) (now now' : ℕ) (w : World) (c : Contact)
    → o.option_type ≡ 0
    → o'.option_type ≡ 0
    → o.update_burn_after_at ≢ o'.update_burn_after_at
    → Contacts.find_by_address src w.db ≡ some c
    → setting_of src
        (handle_contact_options src
          (some o')
          id'
          now'
          (handle_contact_options src (some o) id now w).1).1
      ≡ setting_of src
          (handle_contact_options src
            (some o)
            id
            now
            (handle_contact_options src (some o') id' now' w).1).1
handle_contact_options_comm src o o' id id' now now' w c t t' h e =
    twice src o o' id id' now now' w c t t' e
    ∙ ap some (newest_comm o o' (setting c) h)
    ∙ sym (twice src o' o id' id now' now w c t' t e)
