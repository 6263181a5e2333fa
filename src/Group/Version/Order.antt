-- ===== src/Group/Version/Order.antt =====
-- The version of a group is one of its set of members, in no order.
use mathlib.Core.List.{Perm}
use mathlib.Core.List.Perm
use dchat_desktop.Common.{ℕ, String, Option, List, map, ◌≡◌, ap}
use dchat_desktop.Common.Text.{◌++◌}
use dchat_desktop.Types.Group.{Member}
use dchat_desktop.Group.Platform.{Platform}
use dchat_desktop.Group.Version.{gen_group_version, member_key_text, joined, number_text}
use dchat_desktop.Group.Version.Sorting.{sort-perm}

-- Two clients that know the same members, the same signature of the group and the same number of
-- commits compute the same version, in whatever order their databases list the members.
pub gen_group_version-perm :
    (p : Platform) (commits : Option ℕ) (signature : String) (ms ns : List Member)
    → Perm ms ns
    → gen_group_version p commits signature ms ≡ gen_group_version p commits signature ns
unfolding gen_group_version
gen_group_version-perm p commits signature ms ns h =
    ap (λ keys. number_text commits ++ "." ++ p.md5 (signature ++ joined keys))
      (sort-perm (map member_key_text ms) (map member_key_text ns) (Perm.map member_key_text h))
