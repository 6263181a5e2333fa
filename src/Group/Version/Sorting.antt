-- ===== src/Group/Version/Sorting.antt =====
-- `Array.prototype.sort` on texts, and that the order of the input does not matter to it.
use Prim.Native.Char.{code}
use text.Mathlib.TextEquality.{Char-path, eq_iff}
use text.Mathlib.Text.{◌==◌}
use mathlib.Core.HLevel.{hedberg}
use mathlib.Core.List.{foldr}
use mathlib.Core.List.{Perm}
use mathlib.Core.List.Perm
use dchat_desktop.Common.{
  String, Bool, true, false, List, [], ◌∷◌, ◌≡◌, refl, sym, ap, ◌∙◌, ltb, nat_eq, if◌then◌else◌,
  arith, inl, inr, Bool-cases,
}

-- Texts are compared by their code units, from the start.
text_le : String → String → Bool
text_le String.[] t = true
text_le (String.◌∷◌ c s) String.[] = false
text_le (String.◌∷◌ c s) (String.◌∷◌ d t) =
    if ltb (code c) (code d) then true else if nat_eq (code c) (code d) then text_le s t else false

place : String → List String → List String
unfolding text_le
place s [] = s ∷ []
place s (t ∷ ts) = if text_le s t then s ∷ t ∷ ts else t ∷ place s ts

unfoldable pub sort : List String → List String
unfolding place
sort [] = []
sort (s ∷ ss) = place s (sort ss)

text_le_total : (s t : String) → text_le s t ≡ false → text_le t s ≡ true
unfolding text_le
text_le_total String.[] t h = cc
text_le_total (String.◌∷◌ c s) String.[] h = refl
text_le_total (String.◌∷◌ c s) (String.◌∷◌ d t) h = ground (arith, text_le_total s t)

text_le_trans : (s t u : String) → text_le s t ≡ true → text_le t u ≡ true → text_le s u ≡ true
unfolding text_le
text_le_trans String.[] t u h k = refl
text_le_trans (String.◌∷◌ c s) String.[] u h k = cc
text_le_trans (String.◌∷◌ c s) (String.◌∷◌ d t) String.[] h k = cc
text_le_trans (String.◌∷◌ c s) (String.◌∷◌ d t) (String.◌∷◌ e u) h k =
    ground (arith, text_le_trans s t u)

text_le_antisym : (s t : String) → text_le s t ≡ true → text_le t s ≡ true → s ≡ t
unfolding text_le
text_le_antisym String.[] String.[] h k = refl
text_le_antisym String.[] (String.◌∷◌ d t) h k = cc
text_le_antisym (String.◌∷◌ c s) String.[] h k = cc
text_le_antisym (String.◌∷◌ c s) (String.◌∷◌ d t) h k =
    let tails = text_le_antisym s t in ground (arith, tails, Char-path c d)

place_comm : (s t : String) (ts : List String) → place s (place t ts) ≡ place t (place s ts)
unfolding place
place_comm s t [] = ground (arith, text_le_antisym s t, text_le_total s t, text_le_total t s)
place_comm s t (u ∷ us) = ground (
  arith,
  place_comm s t us,
  text_le_antisym s t,
  text_le_total s t,
  text_le_total t s,
  text_le_trans s t u,
  text_le_trans t s u,
  text_le_total s u,
  text_le_total t u,
  text_le_trans s u t,
  text_le_trans t u s,
)

-- `sort` as a fold, to which the library's law on permutations applies.
sort-eq-foldr : (ss : List String) → sort ss ≡ foldr place [] ss
unfolding sort
sort-eq-foldr [] = refl
sort-eq-foldr (s ∷ ss) = ap (place s) (sort-eq-foldr ss)

String-discrete : Discrete String
String-discrete s t = elim (Bool-cases (s == t)) [
  | inl h ↦ yes ((eq_iff s t).0 h)
  | inr h ↦ no (λ e. cc (h, (eq_iff s t).1 e))
]

String-set : IsSet String
String-set = hedberg String-discrete

texts-IsSet : IsSet (List String)
texts-IsSet = hlevel (String-set)

-- The sorted list does not depend on the order of the input.
pub sort-perm : (ss ts : List String) → Perm ss ts → sort ss ≡ sort ts
sort-perm ss ts h =
    sort-eq-foldr ss ∙ Perm.foldr-eq texts-IsSet place place_comm h [] ∙ sym (sort-eq-foldr ts)
