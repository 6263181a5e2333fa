-- ===== src/Table/Defs.antt =====
-- The statements that a repository prepares, over rows of any type with a primary key.
use dchat_desktop.Common.{Option, none, some, List, [], ◌∷◌, ◌++◌, ◌≡◌, if◌then◌else◌, Eq, ◌==◌}

module _ {ℓ κ} {R : Type ℓ} {K : Type κ} ⦃e : Eq K⦄ (key : R → K) where
  -- SELECT * FROM t WHERE key = ?
  unfoldable pub find : K → List R → Option R
  find k [] = none
  find k (r ∷ rs) = if key r == k then some r else find k rs

  -- UPDATE t SET ... WHERE key = ?
  unfoldable pub update : K → (R → R) → List R → List R
  update k f [] = []
  update k f (r ∷ rs) = (if key r == k then f r else r) ∷ update k f rs

  -- DELETE FROM t WHERE key = ?
  unfoldable pub delete : K → List R → List R
  delete k [] = []
  delete k (r ∷ rs) = if key r == k then delete k rs else r ∷ delete k rs

  -- INSERT INTO t; `none` is a violated PRIMARY KEY constraint.
  unfoldable pub insert : R → List R → Option (List R)
  insert r rs = elim (find (key r) rs) [ none ↦ some (rs ++ r ∷ []) | some _ ↦ none ]

  -- INSERT INTO t ... ON CONFLICT(key) DO UPDATE SET ...; the merge is given the excluded row first.
  unfoldable pub upsert : (R → R → R) → R → List R → List R
  upsert merge r rs = elim (find (key r) rs) [
    | none ↦ rs ++ r ∷ []
    | some _ ↦ update (key r) (merge r) rs
  ]

  -- No two rows have one key.
  abbrev pub IsKeyed : List R → Type ℓ
  IsKeyed [] = Unit
  IsKeyed (r ∷ rs) = (find (key r) rs ≡ none) × IsKeyed rs
