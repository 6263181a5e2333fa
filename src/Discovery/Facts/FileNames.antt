-- ===== src/Discovery/Facts/FileNames.antt =====
-- discovery-service.ts: the names of the files that the avatars of strangers are written to.
use Prim.Native.Char.{code}
use Prim.Native.String.{[], ◌∷◌}
use text.Mathlib.TextLemmas.{nil-append, cons-append}
use dchat_desktop.Common.{
  nat_eq, ℕ, ◌≤◌, ◌*◌, String, Bool, true, false, ◌||◌, some, ◌≡◌, refl, arith, Bool-cases, inl,
  inr, subst, ◌∙◌,
}
use dchat_desktop.Common.Text.{◌++◌}
use dchat_desktop.Discovery.Cache.{
  Files, cache_avatar, avatar_file, safe_name, safe_ext, is_reserved, is_alphanumeric,
}

-- A character that separates the parts of a path, or that is not allowed in a file name.
abbrev pub has_reserved : String → Bool
has_reserved [] = false
has_reserved (c ∷ s) = is_reserved (code c) || has_reserved s

has_reserved-append : (s t : String) → has_reserved (s ++ t) ≡ (has_reserved s || has_reserved t)
has_reserved-append [] t = rw (nil-append t) refl
has_reserved-append (c ∷ s) t = rw (cons-append c s t) (ground (arith, has_reserved-append s t))

has_reserved-safe_name : (s : String) → has_reserved (safe_name s) ≡ false
unfolding safe_name is_reserved
has_reserved-safe_name [] = refl
has_reserved-safe_name (c ∷ s) = elim (Bool-cases (is_reserved (code c))) [
  | inl bad ↦ rw bad (has_reserved-safe_name s)
  | inr fine ↦ rw fine (rw fine (has_reserved-safe_name s))
]

alphanumeric-safe : (c : ℕ) → is_alphanumeric c ≡ true → is_reserved c ≡ false
unfolding is_alphanumeric is_reserved
alphanumeric-safe c h = ground (arith, h)

has_reserved-safe_ext : (s : String) → has_reserved (safe_ext s) ≡ false
unfolding safe_ext
has_reserved-safe_ext [] = refl
has_reserved-safe_ext (c ∷ s) = elim (Bool-cases (is_alphanumeric (code c))) [
  | inl fine ↦ rw fine (rw (alphanumeric-safe (code c) fine) (has_reserved-safe_ext s))
  | inr bad ↦ rw bad (has_reserved-safe_ext s)
]

dot_is_clean : has_reserved "." ≡ false
unfolding is_reserved
dot_is_clean = refl

has_reserved-avatar_file : (topic_id ext : String) → has_reserved (avatar_file topic_id ext) ≡ false
has_reserved-avatar_file topic_id ext =
    has_reserved-append (safe_name topic_id ++ ".") (safe_ext ext)
    ∙ rw
        (
          has_reserved-append (safe_name topic_id) ".",
          has_reserved-safe_name topic_id,
          dot_is_clean,
        )
        (has_reserved-safe_ext ext)

-- A character of the name.
abbrev pub has_code : ℕ → String → Bool
has_code c [] = false
has_code c (d ∷ s) = nat_eq (code d) c || has_code c s

has_code-reserved :
    (c : ℕ) (s : String) → is_reserved c ≡ true → has_reserved s ≡ false → has_code c s ≡ false
unfolding is_reserved
has_code-reserved c [] h e = refl
has_code-reserved c (d ∷ s) h e = ground (arith, h, e, has_code-reserved c s h)

separators-reserved : (is_reserved b'/' ≡ true) × (is_reserved 92 ≡ true)
unfolding is_reserved
separators-reserved = (refl, refl)

-- The file for an avatar that a stranger announces is a file in the cache folder: whatever the name of
-- the group and the extension are, its name has no `/` and no `\`, and it is neither `.` nor `..`,
-- where the system does not write these folders as files. And the file has between ten bytes and five
-- megabytes.
pub cache_avatar-safe :
    (files : Files) (topic_id base64 ext name : String)
    → files.can_write "." ≡ false
    → files.can_write ".." ≡ false
    → cache_avatar files topic_id base64 ext ≡ some name
    → (has_code b'/' name ≡ false)
      × (has_code 92 name ≡ false)
      × ¬ (name ≡ ".")
      × ¬ (name ≡ "..")
      × (10 ≤ files.decoded_size base64)
      × (files.decoded_size base64 ≤ 5 * 1024 * 1024)
unfolding cache_avatar
cache_avatar-safe files topic_id base64 ext name here above h =
    let same : avatar_file topic_id ext ≡ name = ground (arith, h) in
    let clean : has_reserved name ≡ false =
      subst (λ s. has_reserved s ≡ false) same (has_reserved-avatar_file topic_id ext) in
    let written : files.can_write name ≡ true =
      subst (λ s. files.can_write s ≡ true) same (ground (arith, h)) in
    (
      has_code-reserved b'/' name separators-reserved.0 clean,
      has_code-reserved 92 name separators-reserved.1 clean,
      λ e. ground (arith, subst (λ s. files.can_write s ≡ true) e written, here),
      λ e. ground (arith, subst (λ s. files.can_write s ≡ true) e written, above),
      ground (arith, h),
      ground (arith, h),
    )
