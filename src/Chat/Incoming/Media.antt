-- ===== src/Chat/Incoming/Media.antt =====
-- The tests of `handleIncomingMessage` on the content of a message: its media kind, the text of the
-- session preview and of the notification, and whether there is anything to show or to download.
use Prim.Native.Char.{code}
use Prim.Native.String.{[], ◌∷◌}
use text.Mathlib.Text.{starts_with}
use dchat_desktop.Common.{
  ℕ, String, Bool, true, false, not, ◌&&◌, ◌||◌, Option, none, some, nat_eq, leb, if◌then◌else◌,
}
use dchat_desktop.Common.Text.{truthy}
use dchat_desktop.Types.{MessageOptions, ContentType}
use dchat_desktop.Chat.Incoming.Kinds.{is_ipfs, is_audio}

-- The characters that `trim` removes.
is_space : ℕ → Bool
is_space c =
    (leb 9 c && leb c 13)
    || nat_eq c 32
    || nat_eq c 160
    || nat_eq c 5760
    || (leb 8192 c && leb c 8202)
    || nat_eq c 8232
    || nat_eq c 8233
    || nat_eq c 8239
    || nat_eq c 8287
    || nat_eq c 12288
    || nat_eq c 65279

is_blank_text : String → Bool
is_blank_text [] = true
is_blank_text (c ∷ s) = is_space (code c) && is_blank_text s

-- `!content?.trim()`
unfoldable pub is_blank : Option String → Bool
unfolding is_blank_text is_space
is_blank none = true
is_blank (some s) = is_blank_text s

abbrev pub file_type : Option MessageOptions → Option ℕ
file_type none = none
file_type (some o) = o.file_type

abbrev pub is_type : Option ℕ → ℕ → Bool
is_type (some t) n = nat_eq t n
is_type none n = false

abbrev is_missing : Option ℕ → Bool
is_missing none = true
is_missing (some _) = false

unfoldable pub is_ipfs_audio : ContentType → Option ℕ → Bool
is_ipfs_audio t file_type = is_ipfs t && is_type file_type 2

unfoldable pub is_ipfs_image : ContentType → Option ℕ → Bool
is_ipfs_image t file_type = is_ipfs t && (is_type file_type 1 || is_missing file_type)

unfoldable pub is_ipfs_file : ContentType → Option ℕ → Bool
unfolding is_ipfs_audio is_ipfs_image
is_ipfs_file t file_type =
    is_ipfs t && not (is_ipfs_audio t file_type) && not (is_ipfs_image t file_type)

-- The four ways in which the kind of a message is shown.
unfoldable pub label {ℓ} : {A : Type ℓ} → ContentType → Option ℕ → (voice file image plain : A) → A
unfolding is_ipfs_file
label t file_type voice file image plain =
    if is_audio t || is_ipfs_audio t file_type
    then voice
    else if is_ipfs_file t file_type
    then file
    else if is_ipfs t
    then image
    else plain

unfoldable pub session_preview : ContentType → Option ℕ → String → String
unfolding label
session_preview t file_type content = label t file_type "[Voice Message]" "[File]" "[Image]" content

unfoldable pub notification_body : ContentType → Option ℕ → String → String
unfolding label
notification_body t file_type content = label t file_type "Voice Message" "File" "Image" content

abbrev pub ipfs_hash : Option MessageOptions → Option String
ipfs_hash none = none
ipfs_hash (some o) = o.ipfs_hash

unfoldable pub has_ipfs_data : ContentType → Option MessageOptions → String → Bool
has_ipfs_data t options content =
    truthy (ipfs_hash options) || (is_ipfs t && truthy (some content) && starts_with content "Qm")
