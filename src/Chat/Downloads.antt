-- ===== src/Chat/Downloads.antt =====
-- chat-service.ts: the downloads from IPFS and their retries. `attempt k` is what the media service
-- answers to the k-th attempt: the path of the file, or none where it throws. The loop writes nothing
-- before its end, so a download is one action; `now` is the time of its end.
pub mod Outcome
use dchat_desktop.Common.{
  ℕ, zero, suc, ◌+◌, String, Bool, true, false, ◌&&◌, ◌||◌, Option, none, some, List, [], ◌∷◌,
  nat_eq, if◌then◌else◌,
}
use dchat_desktop.Common.Text.{truthy}
use dchat_desktop.Types.{Message, MessageOptions, ContentType}
use dchat_desktop.Store.Messages
use dchat_desktop.Chat.Incoming.Kinds.{is_ipfs, is_audio}
use dchat_desktop.Chat.Incoming.Media.{is_type, ipfs_hash}
use dchat_desktop.Exec.{Exec, ◌>>=◌, ◌>>◌, pure, gets, modify, push, when, with_some, on_message}

-- `for (let attempt = 1; attempt <= retries; attempt++)`, from attempt `k` on, with `left` attempts.
unfoldable pub tries : (k left : ℕ) → (ℕ → Option String) → Option String
tries k zero attempt = none
tries k (suc left) attempt =
    let rest = tries (k + 1) left attempt in
    elim (attempt k) [ some path ↦ some path | none ↦ rest ]

abbrev pub failed_mark : String
failed_mark = "__download_failed__"

abbrev pub path_or_mark : Option String → String
path_or_mark (some path) = path
path_or_mark none = failed_mark

-- `opts.ipfsHash || message.content`
abbrev source_hash : MessageOptions → Message → Bool
source_hash opts m = truthy opts.ipfs_hash || truthy (some m.content)

-- `downloadIpfsImage`, `downloadIpfsAudio` and `downloadIpfsFile`; `present` says that the service for
-- the medium is set.
unfoldable pub download :
    Bool → Message → MessageOptions → (ℕ → Option String) → ℕ → Exec (Unit {0})
unfolding ◌>>=◌ when
download present m opts attempt now =
    let path = path_or_mark (tries 1 3 attempt) in
    when (present && source_hash opts m) do
      modify (Messages.update_local_file_path m.id path now)
      push (on_message (record m { local_file_path = some path }))

-- Clear the path, show the message as downloading, and download again.
unfoldable pub again : Bool → String → MessageOptions → (ℕ → Option String) → ℕ → Exec (Unit {0})
unfolding ◌>>=◌ with_some
again present id opts attempt now = do
  modify (Messages.update_local_file_path id "" now)
  updated ← gets (Messages.find_by_id id)
  with_some updated λ m. do
    push (on_message (record m { local_file_path = none }))
    download present m opts attempt now

-- `retryImageDownload` and `retryFileDownload`
abbrev pub is_image_retry : Message → MessageOptions → Bool
is_image_retry m opts = is_ipfs m.content_type && truthy opts.ipfs_hash

abbrev pub is_file_retry : Message → MessageOptions → Bool
is_file_retry m opts = is_ipfs m.content_type && is_type opts.file_type 0 && truthy opts.ipfs_hash

retry_if :
    (Message → MessageOptions → Bool) → Bool → String → (ℕ → Option String) → ℕ → Exec (Unit {0})
unfolding ◌>>=◌ when with_some again
retry_if test present id attempt now = do
  found ← gets (Messages.find_by_id id)
  with_some found
      λ m. with_some m.options λ opts. when (test m opts) (again present id opts attempt now)

unfoldable pub retry_image_download : Bool → String → (ℕ → Option String) → ℕ → Exec (Unit {0})
unfolding retry_if
retry_image_download present id attempt now = retry_if is_image_retry present id attempt now

unfoldable pub retry_file_download : Bool → String → (ℕ → Option String) → ℕ → Exec (Unit {0})
unfolding retry_if
retry_file_download present id attempt now = retry_if is_file_retry present id attempt now
