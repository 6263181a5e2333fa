-- ===== src/Chat/Downloads/Outcome.antt =====
-- How a download ends.
use dchat_desktop.Common.{
  ℕ, zero, suc, ◌+◌, ◌≤◌, ◌<◌, String, true, Option, none, some, ◌≡◌, refl, ap, ◌∙◌, arith,
  string_eq, Option-cases, inl, inr, ◌⊎◌,
}
use text.Mathlib.TextEquality.{eq_iff}
use dchat_desktop.Table.{find-update}
use dchat_desktop.Types.{Message, MessageOptions}
use dchat_desktop.Store.Db.{message_key}
use dchat_desktop.Store.Messages.{find_by_id, update_local_file_path, set_row}
use dchat_desktop.Exec.{World, with_some, when}
use dchat_desktop.Common.Text.{truthy}
use dchat_desktop.Chat.Downloads.{
  tries, path_or_mark, download, retry_image_download, is_image_retry, again,
}

from_next : (k i : ℕ) → k ≤ i → (i ≡ k) ⊎ (k + 1 ≤ i)
from_next k i h = omega arith

-- The loop stops at the first attempt that succeeds, and gives up only if every attempt failed.
pub tries_lem :
    (k left : ℕ) (attempt : ℕ → Option String)
    → ((n : ℕ) × (k ≤ n)
        × (n < k + left)
        × (tries k left attempt ≡ attempt n)
        × ((i : ℕ) → k ≤ i → i < n → attempt i ≡ none))
      ⊎ ((tries k left attempt ≡ none) × ((i : ℕ) → k ≤ i → i < k + left → attempt i ≡ none))
unfolding tries
tries_lem k zero attempt = inr (refl, λ i a b. ground arith)
tries_lem k (suc left) attempt = elim (Option-cases (attempt k)) [
  | inr (path, e) ↦ inl (k, omega arith, omega arith, rw (e, tries) refl, λ i a b. ground arith)
  | inl e ↦ elim (tries_lem (k + 1) left attempt) [
    | inl (n, a, b, t, before) ↦ inl (
      n,
      omega arith,
      omega arith,
      rw (e, tries) t,
      λ i c d. elim (from_next k i c) [ inl same ↦ rw same e | inr above ↦ before i above d ],
    )
    | inr (t, before) ↦ inr (
      rw (e, tries) t,
      λ i c d. elim (from_next k i c) [
        | inl same ↦ rw same e
        | inr above ↦ before i above (omega arith)
      ],
    )
  ]
]

abbrev pub with_path : String → ℕ → Message → Message
with_path path now m = record m { local_file_path = some path; updated_at = now }

find-with_path :
    (id path : String) (now : ℕ) (w : World) (m : Message)
    → find_by_id id w.db ≡ some m
    → find_by_id id (update_local_file_path id path now w.db) ≡ some (with_path path now m)
unfolding find_by_id update_local_file_path set_row
find-with_path id path now w m e = ground (
  arith,
  find-update message_key id id (with_path path now) w.db.messages (λ r. refl),
  eq_iff id id,
)

find-download :
    (m x : Message) (opts : MessageOptions) (attempt : ℕ → Option String) (now : ℕ) (w : World)
    → truthy opts.ipfs_hash ≡ true
    → find_by_id m.id w.db ≡ some x
    → find_by_id m.id (download true m opts attempt now w).1.db
      ≡ some (with_path (path_or_mark (tries 1 3 attempt)) now x)
unfolding download
find-download m x opts attempt now w h e =
    rw h (find-with_path m.id (path_or_mark (tries 1 3 attempt)) now w x e)

find-again :
    (m : Message) (opts : MessageOptions) (attempt : ℕ → Option String) (now : ℕ) (w : World)
    → truthy opts.ipfs_hash ≡ true
    → find_by_id m.id w.db ≡ some m
    → find_by_id m.id (again true m.id opts attempt now w).1.db
      ≡ some (with_path (path_or_mark (tries 1 3 attempt)) now m)
unfolding again
find-again m opts attempt now w h e =
    rw (find-with_path m.id "" now w m e, with_some)
      (find-download (with_path "" now m) (with_path "" now m) opts attempt now _ h
        (find-with_path m.id "" now w m e))

retried :
    (m : Message) (opts : MessageOptions) (attempt : ℕ → Option String) (now : ℕ) (w : World)
    → find_by_id m.id w.db ≡ some m
    → m.options ≡ some opts
    → is_image_retry m opts ≡ true
    → retry_image_download true m.id attempt now w ≡ again true m.id opts attempt now w
unfolding retry_image_download
retried m opts attempt now w e o h = rw (e, with_some, o, h, when) refl

-- The path of the first attempt that succeeds, and the mark of a failure where all three fail.
abbrev pub first_of : (first second third : Option String) → String
first_of (some path) second third = path
first_of none (some path) third = path
first_of none none (some path) = path
first_of none none none = "__download_failed__"

tries-first_of :
    (attempt : ℕ → Option String)
    → path_or_mark (tries 1 3 attempt) ≡ first_of (attempt 1) (attempt 2) (attempt 3)
unfolding tries
tries-first_of attempt = elim (Option-cases (attempt 1)) [
  | inr (path, e) ↦ ground (arith, e)
  | inl e ↦ elim (Option-cases (attempt 2)) [
    | inr (path, f) ↦ ground (arith, e, f)
    | inl f ↦ elim (Option-cases (attempt 3)) [
      | inr (path, g) ↦ ground (arith, e, f, g)
      | inl g ↦ ground (arith, e, f, g)
    ]
  ]
]

-- A retry of an image that has a hash, with the image service set, never leaves the message without
-- an answer: its path is in the end the one of the first of three attempts that succeeded, or the mark
-- of a failure where all three failed.
pub find-retry_image_download :
    (m : Message) (opts : MessageOptions) (attempt : ℕ → Option String) (now : ℕ) (w : World)
    → find_by_id m.id w.db ≡ some m
    → m.options ≡ some opts
    → is_image_retry m opts ≡ true
    → find_by_id m.id (retry_image_download true m.id attempt now w).1.db
      ≡ some (with_path (first_of (attempt 1) (attempt 2) (attempt 3)) now m)
find-retry_image_download m opts attempt now w e o h =
    ap (λ r. find_by_id m.id r.1.db) (retried m opts attempt now w e o h)
    ∙ find-again m opts attempt now w (ground arith) e
    ∙ ap (λ path. some (with_path path now m)) (tries-first_of attempt)
