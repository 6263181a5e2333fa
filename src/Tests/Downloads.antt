-- ===== src/Tests/Downloads.antt =====
-- The theorems on downloads at concrete inputs.
use dchat_desktop.Common.{
  ℕ, String, Option, none, some, [], ◌∷◌, ◌≡◌, refl, true, nat_eq, if◌then◌else◌,
}
use dchat_desktop.Types.{Message, MessageOptions, ipfs}
use dchat_desktop.Store.Messages
use dchat_desktop.Table.{find}
use dchat_desktop.Exec.{World}
use dchat_desktop.Chat.Incoming.{no_options}
use dchat_desktop.Chat.Incoming.Kinds
use dchat_desktop.Chat.Downloads.{retry_image_download, is_image_retry}
use dchat_desktop.Chat.Downloads.Outcome.{with_path, find-retry_image_download}
use dchat_desktop.Tests.Fixtures.{letter, talk, stored}

abbrev second : ℕ → Option String
second n = if nat_eq n 2 then some "/a.jpg" else none

abbrev hashed : MessageOptions
hashed = record no_options { ipfs_hash = some "Qm1" }

abbrev picture : Message
picture = record (letter "m6" "direct:bob") { content_type = ipfs; options = some hashed }

abbrev picture_world : World
picture_world = stored (picture ∷ []) (talk "direct:bob" ∷ [])

picture_found : Messages.find_by_id "m6" picture_world.db ≡ some picture
unfolding Messages.find_by_id find
picture_found = refl

picture_retried : is_image_retry picture hashed ≡ true
unfolding Kinds.is_ipfs
picture_retried = refl

find-retry_image_download_example :
    Messages.find_by_id "m6" (retry_image_download true "m6" second 90 picture_world).1.db
    ≡ some (with_path "/a.jpg" 90 picture)
find-retry_image_download_example =
    find-retry_image_download picture hashed second 90 picture_world picture_found refl
      picture_retried
