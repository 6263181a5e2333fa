-- ===== src/Group/Version/Commits.antt =====
-- The number of commits that a version holds is read back as it was written.
use Prim.Native.String.{◌∷◌}
use dchat_desktop.Common.{
  ℕ, ◌+◌, ◌*◌, ◌/◌, ◌%◌, ◌<◌, zero, suc, String, some, List, map, ◌≡◌, ◌∙◌, ap, refl, arith,
}
use dchat_desktop.Common.Text.{◌++◌, decimal, decimal_from, digit}
use text.Mathlib.TextLemmas.{append_assoc, cons-append, nil-append}
use dchat_desktop.Types.Group.{Member}
use dchat_desktop.Group.Platform.{Platform}
use dchat_desktop.Group.Version.Sorting.{sort}
use dchat_desktop.Group.Version.{
  or_one, joined, member_key_text, gen_group_version, next_commits, parse_int, digits_from,
  before_dot,
}

digits_from-digit :
    (n d : ℕ) (s : String) → d < 10 → digits_from n (digit d ∷ s) ≡ digits_from (n * 10 + d) s
unfolding digits_from digit
digits_from-digit n zero s h = ground arith
digits_from-digit n (suc zero) s h = ground arith
digits_from-digit n (suc (suc zero)) s h = ground arith
digits_from-digit n (suc (suc (suc zero))) s h = ground arith
digits_from-digit n (suc (suc (suc (suc zero)))) s h = ground arith
digits_from-digit n (suc (suc (suc (suc (suc zero))))) s h = ground arith
digits_from-digit n (suc (suc (suc (suc (suc (suc zero)))))) s h = ground arith
digits_from-digit n (suc (suc (suc (suc (suc (suc (suc zero))))))) s h = ground arith
digits_from-digit n (suc (suc (suc (suc (suc (suc (suc (suc zero)))))))) s h = ground arith
digits_from-digit n (suc (suc (suc (suc (suc (suc (suc (suc (suc zero))))))))) s h = ground arith
digits_from-digit n (suc (suc (suc (suc (suc (suc (suc (suc (suc (suc d)))))))))) s h =
    absurd (omega arith)

before_dot-digit : (d : ℕ) (s : String) → before_dot (digit d ∷ s) ≡ digit d ∷ before_dot s
unfolding before_dot digit
before_dot-digit zero s = refl
before_dot-digit (suc zero) s = refl
before_dot-digit (suc (suc zero)) s = refl
before_dot-digit (suc (suc (suc zero))) s = refl
before_dot-digit (suc (suc (suc (suc zero)))) s = refl
before_dot-digit (suc (suc (suc (suc (suc zero))))) s = refl
before_dot-digit (suc (suc (suc (suc (suc (suc zero)))))) s = refl
before_dot-digit (suc (suc (suc (suc (suc (suc (suc zero))))))) s = refl
before_dot-digit (suc (suc (suc (suc (suc (suc (suc (suc zero)))))))) s = refl
before_dot-digit (suc (suc (suc (suc (suc (suc (suc (suc (suc zero))))))))) s = refl
before_dot-digit (suc (suc (suc (suc (suc (suc (suc (suc (suc (suc d)))))))))) s = refl

parse_int-digit :
    (d : ℕ) (s : String) → parse_int (or_one (digit d ∷ s)) ≡ some (digits_from 0 (digit d ∷ s))
unfolding parse_int digit
parse_int-digit zero s = refl
parse_int-digit (suc zero) s = refl
parse_int-digit (suc (suc zero)) s = refl
parse_int-digit (suc (suc (suc zero))) s = refl
parse_int-digit (suc (suc (suc (suc zero)))) s = refl
parse_int-digit (suc (suc (suc (suc (suc zero))))) s = refl
parse_int-digit (suc (suc (suc (suc (suc (suc zero)))))) s = refl
parse_int-digit (suc (suc (suc (suc (suc (suc (suc zero))))))) s = refl
parse_int-digit (suc (suc (suc (suc (suc (suc (suc (suc zero)))))))) s = refl
parse_int-digit (suc (suc (suc (suc (suc (suc (suc (suc (suc zero))))))))) s = refl
parse_int-digit (suc (suc (suc (suc (suc (suc (suc (suc (suc (suc d)))))))))) s = refl

digits_from-decimal_from :
    (fuel n : ℕ) (s : String) → n < fuel → digits_from 0 (decimal_from fuel n s) ≡ digits_from n s
unfolding decimal_from
digits_from-decimal_from zero n s h = absurd (omega arith)
digits_from-decimal_from (suc fuel) n s h = ground (
  arith,
  digits_from-digit 0 n s,
  digits_from-decimal_from fuel (n / 10) (digit (n % 10) ∷ s),
  digits_from-digit (n / 10) (n % 10) s,
)

before_dot-decimal_from :
    (fuel n : ℕ) (s : String)
    → before_dot (decimal_from fuel n s) ≡ decimal_from fuel n (before_dot s)
unfolding decimal_from
before_dot-decimal_from zero n s = refl
before_dot-decimal_from (suc fuel) n s = ground (
  arith,
  before_dot-digit n s,
  before_dot-decimal_from fuel (n / 10) (digit (n % 10) ∷ s),
  before_dot-digit (n % 10) s,
)

parse_int-decimal_from :
    (fuel n : ℕ) (s : String)
    → n < fuel
    → parse_int (or_one (decimal_from fuel n s)) ≡ some (digits_from 0 (decimal_from fuel n s))
unfolding decimal_from
parse_int-decimal_from zero n s h = absurd (omega arith)
parse_int-decimal_from (suc fuel) n s h =
    ground (arith, parse_int-digit n s, parse_int-decimal_from fuel (n / 10) (digit (n % 10) ∷ s))

decimal_from-append :
    (fuel n : ℕ) (s t : String) → decimal_from fuel n s ++ t ≡ decimal_from fuel n (s ++ t)
unfolding decimal_from
decimal_from-append zero n s t = refl
decimal_from-append (suc fuel) n s t = ground (
  arith,
  cons-append (digit n) s t,
  cons-append (digit (n % 10)) s t,
  decimal_from-append fuel (n / 10) (digit (n % 10) ∷ s) t,
)

module _ (p : Platform) (n : ℕ) (signature : String) (ms : List Member) where
  hash : String
  hash = p.md5 (signature ++ joined (sort (map member_key_text ms)))

  gen_group_version-decimal_from :
      gen_group_version p (some n) signature ms ≡ decimal_from (suc n) n ("." ++ hash)
  unfolding gen_group_version decimal hash
  gen_group_version-decimal_from =
      append_assoc (decimal_from (suc n) n "") "." hash
      ∙ decimal_from-append (suc n) n "" ("." ++ hash)
      ∙ ap (decimal_from (suc n) n) (nil-append ("." ++ hash))

  before_dot-dot : (s : String) → before_dot ("." ++ s) ≡ ""
  unfolding before_dot
  before_dot-dot s = ap before_dot (cons-append "." "" s)

  before_dot-gen_group_version :
      before_dot (gen_group_version p (some n) signature ms) ≡ decimal_from (suc n) n ""
  before_dot-gen_group_version =
      ap before_dot gen_group_version-decimal_from
      ∙ before_dot-decimal_from (suc n) n ("." ++ hash)
      ∙ ap (decimal_from (suc n) n) (before_dot-dot hash)

  parse_int-version : parse_int (or_one (decimal_from (suc n) n "")) ≡ some n
  unfolding digits_from
  parse_int-version =
      parse_int-decimal_from (suc n) n "" (omega arith)
      ∙ ap some (digits_from-decimal_from (suc n) n "" (omega arith))

  next_commits-before_dot :
      (s : String) → before_dot s ≡ decimal_from (suc n) n "" → next_commits s ≡ some (n + 1)
  unfolding next_commits
  next_commits-before_dot s e =
      ground (arith, e, parse_int-version, ap (λ t. parse_int (or_one t)) e)

  -- A version is read back with the number of commits that it was made with, whatever the
  -- platform's hash, the signature and the members are, and the next version that is made from it has
  -- one commit more.
  pub next_commits-gen_group_version :
      next_commits (gen_group_version p (some n) signature ms) ≡ some (n + 1)
  next_commits-gen_group_version = next_commits-before_dot _ before_dot-gen_group_version
