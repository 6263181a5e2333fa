-- ===== src/Group/Facts/Lists.antt =====
-- private-group-service.ts: what a member list leaves: `onMemberResponse`.
use dchat_desktop.Common.{
  ℕ, String, true, false, ◌&&◌, Option, none, some, List, [], ◌∷◌, All, map, ◌≡◌, refl, subst,
  pair_eq, string_eq, ◌==◌, arith, ap, inl, inr, Bool-cases, eq_of_some, if◌then◌else◌, sym,
}
use dchat_desktop.Common.Int.{ℤ, eq_ℤ, eq_ℤ_iff}
use dchat_desktop.Common.Text.{truthy}
use dchat_desktop.Table.{find, IsKeyed, find-upsert}
use dchat_desktop.Types.{MessageData}
use dchat_desktop.Types.Group.{PrivateGroup, Member}
use dchat_desktop.Types.Raw.{RawMember, RawMembers}
use dchat_desktop.Store.Db.{member_key}
use dchat_desktop.Store.Groups
use dchat_desktop.Store.Members
use dchat_desktop.Group.Platform.{Platform}
use dchat_desktop.Group.Payload.{parsed, normalise, to_snake_case, ◌or_string◌}
use dchat_desktop.Group.Payload.Reading.{normalise-to_snake_case}
use dchat_desktop.Group.Sync.{merge_member, on_member_response, has_changed, entries, recount}
use dchat_desktop.Group.Session.{push_group}
use dchat_desktop.Group.Facts.{About, about_rules}
use dchat_desktop.Group.Facts.Joined.{find-upsert_member}
use dchat_desktop.Exec.{
  World, ok, pure, modify, Keeps, Keeps-modify, for_each, for_each-cons, ◌>>◌, ◌>>=◌, Keeps-bind,
  keeps_rules,
}

abbrev pub permission_of : Option Member → Option ℤ
permission_of none = none
permission_of (some m) = some m.permission

abbrev pub Has : String × String → ℤ → List PrivateGroup → List Member → Type 0
Has k permission groups members = permission_of (find member_key k members) ≡ some permission

-- An entry that is not skipped.
abbrev pub IsNamed : Member → Type 0
IsNamed m = (truthy (some m.invitee) && truthy (some m.group_id)) ≡ true

find-cons_none :
    (k : String × String) (m : Member) (ms : List Member)
    → find member_key k (m ∷ ms) ≡ none
    → ((member_key m == k) ≡ false) × (find member_key k ms ≡ none)
unfolding find
find-cons_none k m ms h = ground arith

merge_member-ok : (raw : RawMember) (w : World) → (merge_member raw w).0 ≡ ok tt
unfolding merge_member
merge_member-ok raw w = ground arith

-- An entry that changes nothing leaves the same permission.
merged-Has :
    (m : Member) (w : World) (o : Option Member)
    → find member_key (member_key m) w.db.members ≡ o
    → About
        (Has (member_key m) m.permission)
        ((if has_changed o m then modify (Members.upsert m) else pure tt) w).1
unfolding Members.upsert modify pure
merged-Has m w none h = record { tables = ap permission_of (find-upsert_member m w.db.members) }
merged-Has m w (some old) h = elim (Bool-cases (eq_ℤ m.permission old.permission)) [
  | inl e ↦ rw e (record { tables = rw (h, (eq_ℤ_iff m.permission old.permission).0 e) refl })
  | inr e ↦ rw e (record { tables = ap permission_of (find-upsert_member m w.db.members) })
]

merge_member-Has :
    (m : Member) (w : World)
    → IsNamed m
    → About (Has (member_key m) m.permission) (merge_member (to_snake_case m) w).1
unfolding merge_member Members.find_by_group_id_and_invitee
merge_member-Has m w named =
    rw (normalise-to_snake_case m, named)
      (merged-Has m w (find member_key (member_key m) w.db.members) refl)

module _ (k : String × String) (v : ℤ) where
  upsert-other :
      (m : Member)
      → (member_key m == k) ≡ false
      → Keeps (About (Has k v)) (modify (Members.upsert m))
  unfolding Members.upsert
  upsert-other m h = Keeps-modify _ (λ w a. record {
    tables = rw (find-upsert member_key Members.merge m k w.db.members (λ x y. refl), h) a.tables;
  })

  merge_member-other :
      (raw : RawMember)
      → (member_key (normalise raw) == k) ≡ false
      → Keeps (About (Has k v)) (merge_member raw)
  unfolding merge_member
  merge_member-other raw h = search (keeps_rules, upsert-other) depth 10

  merge_members-other :
      (ms : List Member)
      → find member_key k ms ≡ none
      → Keeps (About (Has k v)) (for_each (map to_snake_case ms) merge_member)
  unfolding for_each
  merge_members-other [] h = search keeps_rules
  merge_members-other (m ∷ ms) h =
      let apart = find-cons_none k m ms h in
      Keeps-bind (merge_member (to_snake_case m))
        (λ _. for_each (map to_snake_case ms) merge_member)
        (merge_member-other (to_snake_case m) (rw (normalise-to_snake_case m) (apart.0)))
        (λ _. merge_members-other ms apart.1)

  set_count-Has :
      (id : String) (count now : ℕ)
      → Keeps (About (Has k v)) (modify (Groups.set_count id count now))
  unfolding Groups.set_count Groups.set_row
  set_count-Has id count now = Keeps-modify _ (λ w a. record { tables = a.tables })

pub merge_members-Has :
    (ms : List Member) (w : World)
    → IsKeyed member_key ms
    → All IsNamed ms
    → All
        (λ m.
          About
            (Has (member_key m) m.permission)
            (for_each (map to_snake_case ms) merge_member w).1)
        ms
merge_members-Has [] w keyed named = tt
merge_members-Has (m ∷ ms) w keyed named = (
  rw (for_each-cons merge_member merge_member-ok (to_snake_case m) (map to_snake_case ms) w) (
      (merge_members-other (member_key m) m.permission ms keyed.0).at _
        (merge_member-Has m w named.0)),
  subst (λ after. All (λ x. About (Has (member_key x) x.permission) after) ms)
      (ap (λ r. r.1)
        (sym
          (for_each-cons merge_member merge_member-ok (to_snake_case m) (map to_snake_case ms) w)))
      (merge_members-Has ms (merge_member (to_snake_case m) w).1 keyed.1 named.1),
)

pub All-lookup :
    (P : Member → Type 0) (k : String × String) (m : Member) (ms : List Member)
    → All P ms
    → find member_key k ms ≡ some m
    → P m
unfolding find
All-lookup P k m [] h e = cc
All-lookup P k m (x ∷ ms) h e = elim (Bool-cases (member_key x == k)) [
  | inl same ↦ subst P (eq_of_some x m (ground arith)) h.0
  | inr other ↦ All-lookup P k m ms h.1 (ground arith)
]

pub recount-Has :
    (k : String × String) (v : ℤ) (group_id : String) (now : ℕ)
    → Keeps (About (Has k v)) (recount group_id now)
unfolding recount
recount-Has k v group_id now = search (about_rules, set_count-Has)

module _ (p : Platform) (d : MessageData) (now : ℕ) (raw : RawMembers) (group_id : String)
    (ms : List Member) where
  -- The handler, once it has found the group.
  pub on_member_response-merges :
      (w : World) (g : PrivateGroup)
      → parsed p.parse_members d ≡ some raw
      → raw.group_id or_string "" ≡ group_id
      → entries raw ≡ map to_snake_case ms
      → Groups.find_by_id group_id w.db ≡ some g
      → on_member_response p d now w
        ≡ (for_each (map to_snake_case ms) merge_member >>= λ _.
              (recount group_id now >> push_group group_id))
            w
  unfolding on_member_response
  on_member_response-merges w g parse group list found = rw (parse, group, found, list) refl
