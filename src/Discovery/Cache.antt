-- ===== src/Discovery/Cache.antt =====
-- discovery-service.ts: the files of the avatars. What the file system answers is a parameter.
use Prim.Native.Char.{code}
use Prim.Native.String.{[], ◌∷◌}
use dchat_desktop.Common.{
  ℕ, ◌+◌, ◌*◌, String, Bool, ◌&&◌, ◌||◌, Option, none, some, ltb, leb, nat_eq, if◌then◌else◌,
}
use dchat_desktop.Common.Text.{◌++◌, truthy}
use dchat_desktop.Types.Topic.{Avatar}

-- `decoded_size` is the number of bytes that a base64 text stands for; `can_write` says whether a file
-- of that name can be written; `read` gives its bytes in base64, and none where it is not there.
pub record Files : Type 0 where
  pub decoded_size : String → ℕ
  pub can_write : String → Bool
  pub exists : String → Bool
  pub read : String → Option String
  pub extname : String → String

-- `s.length`: a character outside the basic plane counts twice.
unfoldable pub utf16_length : String → ℕ
utf16_length [] = 0
utf16_length (c ∷ s) = (if ltb 65535 (code c) then 2 else 1) + utf16_length s

-- The characters / \ : * ? " < > |
unfoldable pub is_reserved : ℕ → Bool
is_reserved c =
    nat_eq c b'/'
    || nat_eq c 92
    || nat_eq c b':'
    || nat_eq c b'*'
    || nat_eq c b'?'
    || nat_eq c 34
    || nat_eq c b'<'
    || nat_eq c b'>'
    || nat_eq c b'|'

unfoldable pub safe_name : String → String
unfolding is_reserved
safe_name [] = []
safe_name (c ∷ s) = (if is_reserved (code c) then "_" else c) ∷ safe_name s

unfoldable pub is_alphanumeric : ℕ → Bool
is_alphanumeric c =
    (leb b'a' c && leb c b'z') || (leb b'A' c && leb c b'Z') || (leb b'0' c && leb c b'9')

unfoldable pub safe_ext : String → String
unfolding is_alphanumeric
safe_ext [] = []
safe_ext (c ∷ s) = if is_alphanumeric (code c) then c ∷ safe_ext s else safe_ext s

abbrev pub max_avatar_bytes : ℕ
max_avatar_bytes = 5 * 1024 * 1024

abbrev pub avatar_file : (topic_id ext : String) → String
avatar_file topic_id ext = safe_name topic_id ++ "." ++ safe_ext ext

unfoldable pub cache_avatar : Files → (topic_id base64 ext : String) → Option String
cache_avatar files topic_id base64 ext =
    if ltb (files.decoded_size base64) 10 || ltb max_avatar_bytes (files.decoded_size base64)
    then none
    else if files.can_write (avatar_file topic_id ext)
    then some (avatar_file topic_id ext)
    else none

-- `.replace(".", "")`: the first dot goes.
without_dot : String → String
without_dot [] = []
without_dot (c ∷ s) = if nat_eq (code c) b'.' then s else c ∷ without_dot s

abbrev or_jpeg : String → String
or_jpeg ext = if truthy (some ext) then ext else "jpeg"

abbrev with_ext : String → Option String → Option Avatar
with_ext ext none = none
with_ext ext (some base64) = some (record { base64 = base64; ext = ext })

unfoldable pub read_cached_avatar : Files → String → Option Avatar
unfolding without_dot
read_cached_avatar files avatar_uri =
    with_ext (or_jpeg (without_dot (files.extname avatar_uri))) (files.read avatar_uri)
