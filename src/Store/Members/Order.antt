-- ===== src/Store/Members/Order.antt =====
-- ORDER BY permission DESC: a stable sort on a signed column.
use dchat_desktop.Common.{List, [], ◌∷◌, if◌then◌else◌, length, suc, ◌≡◌, refl, arith}
use dchat_desktop.Common.Int.{ltb_ℤ}
use dchat_desktop.Types.Group.{Member}

unfoldable pub place : Member → List Member → List Member
place m [] = m ∷ []
place m (x ∷ xs) = if ltb_ℤ m.permission x.permission then x ∷ place m xs else m ∷ x ∷ xs

unfoldable pub order_by_permission : List Member → List Member
unfolding place
order_by_permission [] = []
order_by_permission (m ∷ ms) = place m (order_by_permission ms)

length-place : (m : Member) (ms : List Member) → length (place m ms) ≡ suc (length ms)
unfolding place
length-place m [] = refl
length-place m (x ∷ xs) = ground (arith, length-place m xs)

pub length-order_by_permission : (ms : List Member) → length (order_by_permission ms) ≡ length ms
unfolding order_by_permission
length-order_by_permission [] = refl
length-order_by_permission (m ∷ ms) =
    ground (arith, length-place m (order_by_permission ms), length-order_by_permission ms)
