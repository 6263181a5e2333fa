-- ===== src/Group/Facts/Joined.antt =====
-- private-group-service.ts: what a verified accept leaves.
use dchat_desktop.Common.{
  ℕ, String, true, Option, none, some, List, ◌≡◌, refl, length, pair_eq, string_eq, beq_self, arith,
  ap, Option-cases, inl, inr,
}
use dchat_desktop.Table
use dchat_desktop.Table.{find, update, find-update, find-upsert, find-key}
use dchat_desktop.Types.{MessageData}
use dchat_desktop.Types.Group.{PrivateGroup, Member}
use dchat_desktop.Types.Raw.{RawMember}
use dchat_desktop.Store.Db.{group_key, member_key}
use dchat_desktop.Store.Groups
use dchat_desktop.Store.Members
use dchat_desktop.Group.Platform.{Platform}
use dchat_desktop.Group.Version.{gen_group_version, next_commits}
use dchat_desktop.Group.Payload.{parsed, ◌or_else◌}
use dchat_desktop.Common.Text.{or_empty}
use dchat_desktop.Types.Perm
use dchat_desktop.Group.Welcome.{
  accepted_member, update_version, store_member, take_in, is_signed, on_invitee_accept,
}
use dchat_desktop.Group.Facts.{About, about_rules}
use dchat_desktop.Group.Facts.Removal.{Counted}
use dchat_desktop.Exec.{
  World, modify, Keeps, Keeps-modify, Lands, Lands-modify, lands_rules, holds_after, pure,
  keeps_rules,
}

abbrev pub Listed : Member → List PrivateGroup → List Member → Type 0
Listed m groups members = find member_key (member_key m) members ≡ some m

merge-same : (m x : Member) → member_key x ≡ member_key m → Members.merge m x ≡ m
merge-same m x h = rw (ap (λ k. k.0) h, ap (λ k. k.1) h) refl

pub find-upsert_member :
    (m : Member) (ms : List Member)
    → find member_key (member_key m) (Table.upsert member_key Members.merge m ms) ≡ some m
find-upsert_member m ms = elim (Option-cases (find member_key (member_key m) ms)) [
  | inl h ↦
      rw
        (
          find-upsert member_key Members.merge m (member_key m) ms (λ x y. refl),
          h,
          beq_self {K = String × String} (member_key m),
        )
        refl
  | inr (x, h) ↦
      rw
        (
          find-upsert member_key Members.merge m (member_key m) ms (λ x y. refl),
          h,
          beq_self {K = String × String} (member_key m),
        )
        (ap some (merge-same m x (find-key member_key (member_key m) ms x h)))
]

module _ (m : Member) where
  pub upsert-Listed : Lands (About (Listed m)) (modify (Members.upsert m))
  unfolding Members.upsert
  upsert-Listed = Lands-modify _ (λ w. record { tables = find-upsert_member m w.db.members })

  set_count-Listed :
      (id : String) (count now : ℕ)
      → Keeps (About (Listed m)) (modify (Groups.set_count id count now))
  unfolding Groups.set_count Groups.set_row
  set_count-Listed id count now = Keeps-modify _ (λ w v. record { tables = v.tables })

  set_version-Listed :
      (id version : String) (now : ℕ)
      → Keeps (About (Listed m)) (modify (Groups.set_version id version now))
  unfolding Groups.set_version Groups.set_row
  set_version-Listed id version now = Keeps-modify _ (λ w v. record { tables = v.tables })

  module _ (p : Platform) where
    update_version-Listed :
        (group : Option PrivateGroup) (group_id : String) (active : List Member) (now : ℕ)
        → Keeps (About (Listed m)) (update_version p group group_id active now)
    unfolding update_version
    update_version-Listed group group_id active now =
        search (about_rules, set_count-Listed, set_version-Listed) depth 10

    store_member-Listed : (now : ℕ) → Lands (About (Listed m)) (store_member p m now)
    unfolding store_member
    store_member-Listed now =
        search (lands_rules, about_rules, upsert-Listed, update_version-Listed) depth 15

    take_in-Listed :
        (src : String) (d : MessageData) (uuid : ℕ → String) (now : ℕ)
        → Lands (About (Listed m)) (take_in p m src d uuid now)
    unfolding take_in
    take_in-Listed src d uuid now = search (lands_rules, about_rules, store_member-Listed) depth 30

-- The count and the version are those of the members that are active then.
module _ (p : Platform) (group_id : String) (now : ℕ) where
  update_version-Counted :
      (w : World) (group : Option PrivateGroup)
      → find group_key group_id w.db.groups ≡ group
      → About
          (Counted group_id)
          (update_version p group group_id (Members.active_rows group_id w.db.members) now w).1
  unfolding update_version Groups.set_count Groups.set_version Groups.set_row
  update_version-Counted w none e = record { tables = λ g h. cc }
  update_version-Counted w (some old) e = record {
    tables = λ g h.
        let active = Members.active_rows group_id w.db.members in
        let counted = λ (g : PrivateGroup). record g { count = length active; updated_at = now } in
        let versioned = λ (g : PrivateGroup). record g {
          version = gen_group_version p (next_commits old.version) old.signature active;
          updated_at = now;
        } in
        ground (
          arith,
          h,
          e,
          find-update group_key group_id group_id counted w.db.groups (λ g. refl),
          find-update group_key group_id group_id versioned
              (update group_key group_id counted w.db.groups) (λ g. refl),
          beq_self group_id,
        );
  }

module _ (p : Platform) (m : Member) (now : ℕ) where
  store_member-Counted : Lands (About (Counted m.group_id)) (store_member p m now)
  unfolding store_member Groups.find_by_id Members.find_active_members
  store_member-Counted = record {
    at = λ w.
        let stored = record w { db = Members.upsert m w.db } in
        let group = Groups.find_by_id m.group_id stored.db in
        let active = Members.find_active_members m.group_id stored.db in
        holds_after {Q = About (Counted m.group_id)} (update_version p group m.group_id active now)
          (λ _. pure group) stored (update_version-Counted p m.group_id now stored group refl)
          (λ _. search keeps_rules);
  }

  take_in-Counted :
      (src : String) (d : MessageData) (uuid : ℕ → String)
      → Lands (About (Counted m.group_id)) (take_in p m src d uuid now)
  unfolding take_in
  take_in-Counted src d uuid = search (lands_rules, about_rules, store_member-Counted) depth 30

module _ (p : Platform) (src : String) (d : MessageData) (uuid : ℕ → String) (now : ℕ)
    (raw : RawMember) (group_id inviter invitee : String) where
  accept-take_in :
      (w : World)
      → parsed p.parse_member d ≡ some raw
      → raw.inviter ≡ some inviter
      → raw.invitee ≡ some invitee
      → raw.camel.group_id ≡ some group_id
      → is_signed p inviter invitee raw ≡ true
      → on_invitee_accept p src d uuid now w
        ≡ take_in p (accepted_member group_id inviter invitee raw) src d uuid now w
  unfolding on_invitee_accept
  accept-take_in w parse by who group signed = rw (parse, by, who, signed, group) refl

  -- An accept whose two signatures verify makes the invitee a normal member, with the expiry, the
  -- raw texts and the signatures that the accept has, and the count of the group, if it is known, the number of its active members:
  -- whatever the database said before of the invitee or of the inviter, and even if the handler fails
  -- later on.
  pub on_invitee_accept-joins :
      (w : World)
      → parsed p.parse_member d ≡ some raw
      → raw.inviter ≡ some inviter
      → raw.invitee ≡ some invitee
      → raw.camel.group_id ≡ some group_id
      → is_signed p inviter invitee raw ≡ true
      → let after = (on_invitee_accept p src d uuid now w).1 in
        (Members.find_by_group_id_and_invitee group_id invitee after.db
          ≡ some (record {
            group_id = group_id;
            permission = Perm.normal;
            expires_at = raw.camel.expires_at or_else 0;
            inviter = inviter;
            invitee = invitee;
            inviter_raw_data = or_empty raw.camel.inviter_raw_data;
            invitee_raw_data = or_empty raw.camel.invitee_raw_data;
            inviter_signature = or_empty raw.camel.inviter_signature;
            invitee_signature = or_empty raw.camel.invitee_signature;
          }))
        × ((g : PrivateGroup)
            → Groups.find_by_id group_id after.db ≡ some g
            → g.count ≡ length (Members.find_active_members group_id after.db))
  unfolding Members.find_by_group_id_and_invitee Groups.find_by_id Members.find_active_members
  on_invitee_accept-joins w parse by who group signed =
      rw (accept-take_in w parse by who group signed) (
        ((take_in-Listed (accepted_member group_id inviter invitee raw) p src d uuid now).at
            w).tables,
        ((take_in-Counted p (accepted_member group_id inviter invitee raw) now src d uuid).at
            w).tables,
      )
