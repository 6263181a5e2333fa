-- ===== src/Table/Laws.antt =====
-- What a lookup finds after each statement, and that no statement makes a key occur twice.
use mathlib.Core.Option
use dchat_desktop.Common.{
  none, some, List, [], ◌∷◌, ◌++◌, ◌≡◌, refl, if◌then◌else◌, Eq, ◌==◌, arith, map, Bool, select,
}
use dchat_desktop.Table.Defs.{find, update, delete, upsert, IsKeyed}

module _ {ℓ κ} {R : Type ℓ} {K : Type κ} ⦃e : Eq K⦄ (key : R → K) where
  pub find-update :
      (k j : K) (f : R → R) (rs : List R)
      → ((r : R) → key (f r) ≡ key r)
      → find key j (update key k f rs)
        ≡ (if k == j then Option.map f (find key j rs) else find key j rs)
  unfolding find update
  find-update k j f [] h = ground arith
  find-update k j f (r ∷ rs) h = ground (
    arith,
    h r,
    find-update k j f rs h,
    e.same_key_iff (key r) k,
    e.same_key_iff (key r) j,
    e.same_key_iff k j,
  )

  pub find-append :
      (j : K) (rs : List R) (r : R)
      → find key j (rs ++ r ∷ [])
        ≡ elim (find key j rs) [ none ↦ if key r == j then some r else none | some x ↦ some x ]
  unfolding find
  find-append j [] r = refl
  find-append j (x ∷ rs) r = ground (arith, find-append j rs r)

  pub find-delete :
      (k j : K) (rs : List R)
      → find key j (delete key k rs) ≡ (if k == j then none else find key j rs)
  unfolding find delete
  find-delete k j [] = ground arith
  find-delete k j (r ∷ rs) = ground (
    arith,
    find-delete k j rs,
    e.same_key_iff (key r) k,
    e.same_key_iff (key r) j,
    e.same_key_iff k j,
  )

  pub find-key : (k : K) (rs : List R) (r : R) → find key k rs ≡ some r → key r ≡ k
  unfolding find
  find-key k [] r h = cc
  find-key k (x ∷ rs) r h = ground (arith, e.same_key_iff (key x) k, find-key k rs r)

  pub find-upsert :
      (merge : R → R → R) (r : R) (j : K) (rs : List R)
      → ((x y : R) → key (merge x y) ≡ key y)
      → find key j (upsert key merge r rs) ≡ (
          if key r == j
          then elim (find key j rs) [ none ↦ some r | some x ↦ some (merge r x) ]
          else find key j rs)
  unfolding upsert
  find-upsert merge r j rs h = ground (
    arith,
    find-append j rs r,
    find-update (key r) j (merge r) rs (h r),
    e.same_key_iff (key r) j,
  )

  pub update-IsKeyed :
      (k : K) (f : R → R) (rs : List R)
      → ((r : R) → key (f r) ≡ key r)
      → IsKeyed key rs
      → IsKeyed key (update key k f rs)
  unfolding update
  update-IsKeyed k f [] h v = tt
  update-IsKeyed k f (r ∷ rs) h v =
      ground (arith, h r, find-update k (key r) f rs h, update-IsKeyed k f rs h v.1)

  pub append-IsKeyed :
      (r : R) (rs : List R)
      → find key (key r) rs ≡ none
      → IsKeyed key rs
      → IsKeyed key (rs ++ r ∷ [])
  unfolding find
  append-IsKeyed r [] h v = (refl, tt)
  append-IsKeyed r (x ∷ rs) h v = ground (
    arith,
    find-append (key x) rs r,
    append-IsKeyed r rs,
    e.same_key_iff (key x) (key r),
    e.same_key_iff (key r) (key x),
  )

  pub delete-IsKeyed : (k : K) (rs : List R) → IsKeyed key rs → IsKeyed key (delete key k rs)
  unfolding delete
  delete-IsKeyed k [] v = tt
  delete-IsKeyed k (r ∷ rs) v = ground (arith, find-delete k (key r) rs, delete-IsKeyed k rs v.1)

  pub upsert-IsKeyed :
      (merge : R → R → R) (r : R) (rs : List R)
      → ((x y : R) → key (merge x y) ≡ key y)
      → IsKeyed key rs
      → IsKeyed key (upsert key merge r rs)
  unfolding upsert
  upsert-IsKeyed merge r rs h v =
      ground (arith, append-IsKeyed r rs, update-IsKeyed (key r) (merge r) rs (h r) v)

  pub find-map :
      (j : K) (f : R → R) (rs : List R)
      → ((r : R) → key (f r) ≡ key r)
      → find key j (map f rs) ≡ Option.map f (find key j rs)
  unfolding find
  find-map j f [] h = refl
  find-map j f (r ∷ rs) h = ground (arith, h r, find-map j f rs h)

  pub map-IsKeyed :
      (f : R → R) (rs : List R)
      → ((r : R) → key (f r) ≡ key r)
      → IsKeyed key rs
      → IsKeyed key (map f rs)
  map-IsKeyed f [] h v = tt
  map-IsKeyed f (r ∷ rs) h v = ground (arith, h r, find-map (key r) f rs h, map-IsKeyed f rs h v.1)

  -- Deleting by another column keeps the rest as it was.
  pub find-delete_other {μ} :
      {J : Type μ} ⦃d : Eq J⦄ (column : R → J) (c : J) (j : K) (rs : List R)
      → find key j rs ≡ none
      → find key j (delete column c rs) ≡ none
  unfolding find delete
  find-delete_other column c j [] h = refl
  find-delete_other column c j (r ∷ rs) h = ground (arith, find-delete_other column c j rs)

  pub delete_other-IsKeyed {μ} :
      {J : Type μ} ⦃d : Eq J⦄ (column : R → J) (c : J) (rs : List R)
      → IsKeyed key rs
      → IsKeyed key (delete column c rs)
  unfolding delete
  delete_other-IsKeyed column c [] v = tt
  delete_other-IsKeyed column c (r ∷ rs) v =
      ground
        (arith, find-delete_other column c (key r) rs v.0, delete_other-IsKeyed column c rs v.1)

  find-select :
      (p : R → Bool) (j : K) (rs : List R) → find key j rs ≡ none → find key j (select p rs) ≡ none
  unfolding find select
  find-select p j [] h = refl
  find-select p j (r ∷ rs) h = ground (arith, find-select p j rs)

  -- DELETE with any condition.
  pub select-IsKeyed : (p : R → Bool) (rs : List R) → IsKeyed key rs → IsKeyed key (select p rs)
  unfolding select
  select-IsKeyed p [] v = tt
  select-IsKeyed p (r ∷ rs) v =
      ground (arith, find-select p (key r) rs v.0, select-IsKeyed p rs v.1)
