-- ===== src/Group/Version.antt =====
-- ed25519-signature.ts: `genGroupVersion`, and what private-group-service.ts reads back from a version.
pub mod Sorting
pub mod Commits
pub mod Order
use Prim.Native.String.{[], ◌∷◌}
use Prim.Native.Char.{code}
use mathlib.Core.List.{List}
use mathlib.Core.List
use dchat_desktop.Common.{
  ℕ, ◌+◌, ◌*◌, ◌-◌, zero, suc, String, Bool, true, false, ◌&&◌, Option, none, some, map, ltb, leb,
  nat_eq, if◌then◌else◌,
}
use dchat_desktop.Common.Int.{ℤ, pos, negsuc}
use dchat_desktop.Common.Text.{◌++◌, decimal}
use dchat_desktop.Types.Group.{Member}
use dchat_desktop.Group.Platform.{Platform}
use Sorting.{sort}

abbrev decimal_ℤ : ℤ → String
decimal_ℤ (pos n) = decimal n
decimal_ℤ (negsuc n) = "-" ++ decimal (suc n)

-- `${m.permission}_${m.invitee}`
abbrev pub member_key_text : Member → String
member_key_text m = decimal_ℤ m.permission ++ "_" ++ m.invitee

-- `memberKeys.join("")`
abbrev pub joined : List String → String
joined List.[] = ""
joined (List.◌∷◌ s ss) = s ++ joined ss

-- `parseInt` gives NaN, here none, for a text that starts with no digit.
abbrev pub number_text : Option ℕ → String
number_text none = "NaN"
number_text (some n) = decimal n

unfoldable pub gen_group_version : Platform → Option ℕ → String → List Member → String
gen_group_version p commits owner_signature members =
    number_text commits
    ++ "."
    ++ p.md5 (owner_signature ++ joined (sort (map member_key_text members)))

-- `version.split(".")[0]`
unfoldable pub before_dot : String → String
before_dot [] = ""
before_dot (c ∷ s) = if nat_eq (code c) b'.' then "" else c ∷ before_dot s

abbrev is_digit : ℕ → Bool
is_digit c = leb b'0' c && leb c b'9'

-- The digits from the start on; a text from elsewhere may start with a blank or a sign, which is NaN
-- here.
unfoldable pub digits_from : ℕ → String → ℕ
digits_from n [] = n
digits_from n (c ∷ s) = if is_digit (code c) then digits_from (n * 10 + (code c - b'0')) s else n

unfoldable pub parse_int : String → Option ℕ
unfolding digits_from
parse_int [] = none
parse_int (c ∷ s) = if is_digit (code c) then some (digits_from 0 (c ∷ s)) else none

-- `version.split(".")[0] || "1"`
abbrev pub or_one : String → String
or_one [] = "1"
or_one (c ∷ s) = c ∷ s

-- `parseInt(group.version.split(".")[0] || "1") + 1`
unfoldable pub next_commits : String → Option ℕ
unfolding parse_int before_dot
next_commits version = elim (parse_int (or_one (before_dot version))) [
  | some n ↦ some (n + 1)
  | none ↦ none
]
