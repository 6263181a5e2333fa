-- ===== src/Group/Keeping/Uploads.antt =====
-- private-group-service.ts: the uploads and downloads of a group keep the database intact.
use dchat_desktop.Common.{ℕ, String, Bool, Option, none, some}
use dchat_desktop.Types.{Message, MessageOptions}
use dchat_desktop.Types.Group.{PrivateGroup}
use dchat_desktop.Store.Intact.Rules.{Intact}
use dchat_desktop.Chat.Downloads.{download}
use dchat_desktop.Group.Uploads.{
  Uploaded, begin_media, begin_upload, send_uploaded, store_uploaded, finish_upload, finish_audio,
  download_thumbnail_then_full,
}
use dchat_desktop.Group.Keeping.{session_rules}
use dchat_desktop.Group.Keeping.Handlers.{throw_if-Intact}
use dchat_desktop.Group.Keeping.Methods.{try_catch-Intact, finish_with-Intact, send_to_all-Intact}
use dchat_desktop.Exec.{Keeps}

pub begin_media-Intact :
    (present : Bool) (group_id : String) → Keeps Intact (begin_media present group_id)
unfolding begin_media
begin_media-Intact present group_id = search (session_rules, throw_if-Intact) depth 20

pub begin_upload-Intact :
    (present : Bool) (group_id preview id : String) (now : ℕ)
    → Keeps Intact (begin_upload present group_id preview id now)
unfolding begin_upload
begin_upload-Intact present group_id preview id now =
    search (session_rules, begin_media-Intact) depth 30

send_uploaded-Intact :
    (group_id own : String) (m : Message) (r : Uploaded) (now : ℕ)
    → Keeps Intact (send_uploaded group_id own m r now)
unfolding send_uploaded
send_uploaded-Intact group_id own m r now = search (session_rules, finish_with-Intact) depth 20

pub store_uploaded-Intact :
    (m : Message) (r : Uploaded) (now : ℕ) → Keeps Intact (store_uploaded m r now)
unfolding store_uploaded
store_uploaded-Intact m r now = search session_rules depth 20

pub finish_upload-Intact :
    (group_id own : String) (m : Message) (uploaded : Option Uploaded) (now : ℕ)
    → Keeps Intact (finish_upload group_id own m uploaded now)
unfolding finish_upload
finish_upload-Intact group_id own m none now = finish_with-Intact _ m now
finish_upload-Intact group_id own m (some r) now =
    search
      (
        session_rules, try_catch-Intact, finish_with-Intact, send_uploaded-Intact,
        store_uploaded-Intact,
      )
      depth 20

pub finish_audio-Intact :
    (group_id id : String) (sent_at : ℕ) (checked : String × PrivateGroup) (r : Uploaded) (now : ℕ)
    → Keeps Intact (finish_audio group_id id sent_at checked r now)
unfolding finish_audio
finish_audio-Intact group_id id sent_at checked r now =
    search (session_rules, send_to_all-Intact) depth 40

pub download-Intact :
    (present : Bool) (m : Message) (opts : MessageOptions) (attempt : ℕ → Option String) (now : ℕ)
    → Keeps Intact (download present m opts attempt now)
unfolding download
download-Intact present m opts attempt now = search session_rules depth 15

pub download_thumbnail_then_full-Intact :
    (present : Bool) (m : Message) (opts : MessageOptions) (thumbnail : Option String)
    → (attempt : ℕ → Option String) (now : ℕ)
    → Keeps Intact (download_thumbnail_then_full present m opts thumbnail attempt now)
unfolding download_thumbnail_then_full
download_thumbnail_then_full-Intact present m opts thumbnail attempt now =
    search (session_rules, download-Intact) depth 20
