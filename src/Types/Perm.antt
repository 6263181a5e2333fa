-- ===== src/Types/Perm.antt =====
-- private-group.ts: PrivateGroupItemPerm. A member with a permission above `none` is active.
use dchat_desktop.Common.Int.{ℤ, pos, negsuc}

abbrev pub black : ℤ
black = negsuc 19

abbrev pub quit : ℤ
quit = negsuc 9

abbrev pub none : ℤ
none = pos 0

abbrev pub normal : ℤ
normal = pos 10

abbrev pub admin : ℤ
admin = pos 20

abbrev pub owner : ℤ
owner = pos 30
