-- ===== src/Common/Text.antt =====
-- The operations on strings that the services use: a prefix, and a number in decimal.
use Prim.Native.String.{[], ◌∷◌}
use Prim.Native.String
use Prim.Native.Char.{Char}
use dchat_desktop.Common.{
  ℕ, zero, suc, ◌/◌, ◌%◌, String, if◌then◌else◌, ltb, Bool, true, false, Option, none, some,
}

infixl 65 ◌++◌
abbrev pub ◌++◌ : String → String → String
s ++ t = String.◌++◌ s t

-- `s.substring(0, n)`, for strings whose characters are single code units, as in addresses.
unfoldable pub prefix : ℕ → String → String
prefix zero s = ""
prefix (suc n) [] = ""
prefix (suc n) (c ∷ s) = c ∷ prefix n s

-- `address.substring(0, 8) + "..."`
unfoldable pub short : String → String
unfolding prefix
short address = prefix 8 address ++ "..."

unfoldable pub digit : ℕ → Char
digit zero = "0"
digit (suc zero) = "1"
digit (suc (suc zero)) = "2"
digit (suc (suc (suc zero))) = "3"
digit (suc (suc (suc (suc zero)))) = "4"
digit (suc (suc (suc (suc (suc zero))))) = "5"
digit (suc (suc (suc (suc (suc (suc zero)))))) = "6"
digit (suc (suc (suc (suc (suc (suc (suc zero))))))) = "7"
digit (suc (suc (suc (suc (suc (suc (suc (suc zero)))))))) = "8"
digit (suc (suc (suc (suc (suc (suc (suc (suc (suc n))))))))) = "9"

unfoldable pub decimal_from : ℕ → ℕ → String → String
decimal_from zero n done = done
decimal_from (suc fuel) n done =
    let rest = decimal_from fuel (n / 10) (digit (n % 10) ∷ done) in
    if ltb n 10 then digit n ∷ done else rest

-- A number has at most as many digits as its value, and one more at 0.
unfoldable pub decimal : ℕ → String
unfolding decimal_from digit
decimal n = decimal_from (suc n) n ""

-- `s` in a condition: an empty or a missing string counts as false.
abbrev pub truthy : Option String → Bool
truthy (some []) = false
truthy (some _) = true
truthy none = false

-- `s ?? ""`
abbrev pub or_empty : Option String → String
or_empty (some s) = s
or_empty none = ""
