-- ===== src/Table/Order.antt =====
-- ORDER BY a numeric column: a stable sort, ties in rowid order.
use dchat_desktop.Common.{
  ℕ, ◌≤◌, List, [], ◌∷◌, leb, if◌then◌else◌, All, length, suc, ◌≡◌, refl, arith, map, contains, Eq,
}

module _ {ℓ} {R : Type ℓ} (column : R → ℕ) where
  place_asc : R → List R → List R
  place_asc r [] = r ∷ []
  place_asc r (x ∷ xs) = if leb (column r) (column x) then r ∷ x ∷ xs else x ∷ place_asc r xs

  unfoldable pub order_asc : List R → List R
  unfolding place_asc
  order_asc [] = []
  order_asc (r ∷ rs) = place_asc r (order_asc rs)

  place_desc : R → List R → List R
  place_desc r [] = r ∷ []
  place_desc r (x ∷ xs) = if leb (column x) (column r) then r ∷ x ∷ xs else x ∷ place_desc r xs

  unfoldable pub order_desc : List R → List R
  unfolding place_desc
  order_desc [] = []
  order_desc (r ∷ rs) = place_desc r (order_desc rs)

  abbrev pub IsAscending : List R → Type 0
  IsAscending [] = Unit
  IsAscending (r ∷ rs) = All (λ x. column r ≤ column x) rs × IsAscending rs

  module _ {κ} (P : R → Type κ) where
    place_asc-All : (r : R) (rs : List R) → P r → All P rs → All P (place_asc r rs)
    unfolding place_asc
    place_asc-All r [] h hs = (h, tt)
    place_asc-All r (x ∷ xs) h hs = ground (arith, place_asc-All r xs h hs.1)

    pub order_asc-All : (rs : List R) → All P rs → All P (order_asc rs)
    unfolding order_asc
    order_asc-All [] h = tt
    order_asc-All (r ∷ rs) h = place_asc-All r (order_asc rs) h.0 (order_asc-All rs h.1)

  above : (n m : ℕ) (rs : List R) → n ≤ m → All (λ x. m ≤ column x) rs → All (λ x. n ≤ column x) rs
  above n m [] h hs = tt
  above n m (r ∷ rs) h hs = (omega arith, above n m rs h hs.1)

  place_asc-IsAscending : (r : R) (rs : List R) → IsAscending rs → IsAscending (place_asc r rs)
  unfolding place_asc
  place_asc-IsAscending r [] h = (tt, tt)
  place_asc-IsAscending r (x ∷ xs) h = ground (
    arith,
    place_asc-IsAscending r xs h.1,
    above (column r) (column x) xs,
    place_asc-All (λ y. column x ≤ column y) r xs,
  )

  pub order_asc-IsAscending : (rs : List R) → IsAscending (order_asc rs)
  unfolding order_asc
  order_asc-IsAscending [] = tt
  order_asc-IsAscending (r ∷ rs) = place_asc-IsAscending r (order_asc rs) (order_asc-IsAscending rs)

  length-place_asc : (r : R) (rs : List R) → length (place_asc r rs) ≡ suc (length rs)
  unfolding place_asc
  length-place_asc r [] = refl
  length-place_asc r (x ∷ xs) = ground (arith, length-place_asc r xs)

  pub length-order_asc : (rs : List R) → length (order_asc rs) ≡ length rs
  unfolding order_asc
  length-order_asc [] = refl
  length-order_asc (r ∷ rs) = ground (arith, length-place_asc r (order_asc rs), length-order_asc rs)

-- Sorting keeps the keys that are there.
module _ {ℓ κ} {R : Type ℓ} {K : Type κ} ⦃e : Eq K⦄ (column : R → ℕ) (key : R → K) (k : K) where
  contains-place_asc :
      (r : R) (rs : List R)
      → contains (map key (place_asc column r rs)) k ≡ contains (map key (r ∷ rs)) k
  unfolding contains place_asc
  contains-place_asc r [] = refl
  contains-place_asc r (x ∷ xs) = ground (arith, contains-place_asc r xs)

  pub contains-order_asc :
      (rs : List R) → contains (map key (order_asc column rs)) k ≡ contains (map key rs) k
  unfolding contains order_asc
  contains-order_asc [] = refl
  contains-order_asc (r ∷ rs) =
      ground (arith, contains-place_asc r (order_asc column rs), contains-order_asc rs)
