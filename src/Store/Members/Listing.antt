-- ===== src/Store/Members/Listing.antt =====
-- The rows of a group, as its members are listed, have the keys of the table.
use dchat_desktop.Common.{
  String, Bool, true, none, some, List, [], ◌∷◌, ◌≡◌, refl, arith, select, pair_eq, string_eq,
  beq_self, ◌∙◌, Bool-cases, inl, inr, Eq, ap,
}
use dchat_desktop.Common.Int.{ltb_ℤ}
use dchat_desktop.Types.Group.{Member}
use dchat_desktop.Table.{find, IsKeyed, find-key, select-IsKeyed}
use dchat_desktop.Store.Db.{Db, member_key}
use dchat_desktop.Store.Members.{find_by_group_id, in_group}
use dchat_desktop.Store.Members.Order.{place, order_by_permission}

module _ {R K : Type 0} ⦃e : Eq K⦄ (key : R → K) where
  find-swap :
      (k : K) (m x : R) (xs : List R)
      → find key (key m) (x ∷ xs) ≡ none
      → find key k (x ∷ m ∷ xs) ≡ find key k (m ∷ x ∷ xs)
  unfolding find
  find-swap k m x xs h =
      ground (
        arith,
        h,
        e.same_key_iff (key m) k,
        e.same_key_iff (key x) k,
        e.same_key_iff (key x) (key m),
      )

  find-cons :
      (k : K) (x : R) (ms ns : List R)
      → find key k ms ≡ find key k ns
      → find key k (x ∷ ms) ≡ find key k (x ∷ ns)
  unfolding find
  find-cons k x ms ns h = ground (arith, h)

  find-tail_none : (k : K) (x : R) (xs : List R) → find key k (x ∷ xs) ≡ none → find key k xs ≡ none
  unfolding find
  find-tail_none k x xs h = ground (arith, h)

  IsKeyed-swap : (m x : R) (xs : List R) → IsKeyed key (m ∷ x ∷ xs) → IsKeyed key (x ∷ m ∷ xs)
  unfolding find
  IsKeyed-swap m x xs v =
      ground (arith, e.same_key_iff (key x) (key m), e.same_key_iff (key m) (key x))

  module _ (p : R → Bool) where
    find-select :
        (k : K) (rs : List R) (r : R)
        → find key k rs ≡ some r
        → p r ≡ true
        → find key k (select p rs) ≡ some r
    unfolding find select
    find-select k [] r h q = cc
    find-select k (x ∷ rs) r h q = ground (arith, find-select k rs r)

find-place :
    (k : String × String) (m : Member) (ms : List Member)
    → IsKeyed member_key (m ∷ ms)
    → find member_key k (place m ms) ≡ find member_key k (m ∷ ms)
unfolding place
find-place k m [] v = refl
find-place k m (x ∷ xs) v = elim (Bool-cases (ltb_ℤ m.permission x.permission)) [
  | inl h ↦ rw h (
      find-cons member_key k x (place m xs) (m ∷ xs)
        (find-place k m xs (find-tail_none member_key (member_key m) x xs v.0, v.1.1))
      ∙ find-swap member_key k m x xs v.0)
  | inr h ↦ rw h refl
]

place-IsKeyed :
    (m : Member) (ms : List Member) → IsKeyed member_key (m ∷ ms) → IsKeyed member_key (place m ms)
unfolding place
place-IsKeyed m [] v = v
place-IsKeyed m (x ∷ xs) v = elim (Bool-cases (ltb_ℤ m.permission x.permission)) [
  | inl h ↦ rw h (
      let rest : IsKeyed member_key (m ∷ xs) =
        (find-tail_none member_key (member_key m) x xs v.0, v.1.1) in
      (
        find-place (member_key x) m xs rest ∙ (IsKeyed-swap member_key m x xs v).0,
        place-IsKeyed m xs rest,
      ))
  | inr h ↦ rw h v
]

find-order :
    (k : String × String) (ms : List Member)
    → IsKeyed member_key ms
    → (find member_key k (order_by_permission ms) ≡ find member_key k ms)
      × IsKeyed member_key (order_by_permission ms)
unfolding order_by_permission
find-order k [] v = (refl, tt)
find-order k (m ∷ ms) v =
    let rest = find-order k ms v.1 in
    let head = find-order (member_key m) ms v.1 in
    let keyed : IsKeyed member_key (m ∷ order_by_permission ms) = (head.0 ∙ v.0, rest.1) in
    (
      find-place k m (order_by_permission ms) keyed
          ∙ find-cons member_key k m (order_by_permission ms) ms rest.0,
      place-IsKeyed m (order_by_permission ms) keyed,
    )

module _ (group_id : String) (db : Db) (v : IsKeyed member_key db.members) where
  pub find_by_group_id-IsKeyed : IsKeyed member_key (find_by_group_id group_id db)
  unfolding find_by_group_id
  find_by_group_id-IsKeyed =
      (find-order (group_id, "") (select (in_group group_id) db.members)
        (select-IsKeyed member_key (in_group group_id) db.members v)).1

  pub find-find_by_group_id :
      (who : String) (m : Member)
      → find member_key (group_id, who) db.members ≡ some m
      → find member_key (group_id, who) (find_by_group_id group_id db) ≡ some m
  unfolding find_by_group_id
  find-find_by_group_id who m h =
      (find-order (group_id, who) (select (in_group group_id) db.members)
        (select-IsKeyed member_key (in_group group_id) db.members v)).0
      ∙ find-select member_key (in_group group_id) (group_id, who) db.members m h
          (rw (ap (λ k. k.0) (find-key member_key (group_id, who) db.members m h))
            (beq_self group_id))
