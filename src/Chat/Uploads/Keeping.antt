-- ===== src/Chat/Uploads/Keeping.antt =====
-- The uploads of a direct chat keep the database intact.
use dchat_desktop.Common.{ℕ, String, Bool, Option, none, some}
use dchat_desktop.Types.{Message, MessageOptions, ContentType, Contact}
use dchat_desktop.Store.Intact.Rules.{Intact, intact_rules}
use dchat_desktop.Chat.Sessions.Keeping.{get_or_create_session-Intact}
use dchat_desktop.Chat.Downloads.{again}
use dchat_desktop.Chat.Uploads.{
  begin_direct_upload, finish_stored, finish_image, finish_audio_or_file,
}
use dchat_desktop.Group.Uploads.{Uploaded}
use dchat_desktop.Group.Keeping.Handlers.{throw_if-Intact}
use dchat_desktop.Group.Keeping.Methods.{try_catch-Intact, finish_with-Intact}
use dchat_desktop.Group.Keeping.Uploads.{store_uploaded-Intact, download-Intact}
use dchat_desktop.Exec.{Keeps, keeps_rules}

begin_direct_upload-Intact :
    (present : Bool) (to : String) (t : ContentType) (preview id : String) (now : ℕ)
    → Keeps Intact (begin_direct_upload present to t preview id now)
unfolding begin_direct_upload
begin_direct_upload-Intact present to t preview id now =
    search (keeps_rules, intact_rules, get_or_create_session-Intact, throw_if-Intact) depth 30

finish_stored-Intact :
    (to : String) (m : Message) (r : Uploaded) (options : MessageOptions) (now : ℕ)
    → Keeps Intact (finish_stored to m r options now)
unfolding finish_stored
finish_stored-Intact to m r options now =
    search (keeps_rules, intact_rules, try_catch-Intact, finish_with-Intact, store_uploaded-Intact)
      depth 20

module _ (to : String) (m : Message) (contact : Option Contact) (version : Option String) where
  finish_image-Intact :
      (uploaded : Option Uploaded) (now : ℕ)
      → Keeps Intact (finish_image to m contact version uploaded now)
  unfolding finish_image
  finish_image-Intact none now = finish_with-Intact _ m now
  finish_image-Intact (some r) now = finish_stored-Intact to m _ _ now

  finish_audio_or_file-Intact :
      (uploaded : Option Uploaded) (now : ℕ)
      → Keeps Intact (finish_audio_or_file to m contact version uploaded now)
  unfolding finish_audio_or_file
  finish_audio_or_file-Intact none now = finish_with-Intact _ m now
  finish_audio_or_file-Intact (some r) now = finish_stored-Intact to m r _ now

again-Intact :
    (present : Bool) (id : String) (opts : MessageOptions) (attempt : ℕ → Option String) (now : ℕ)
    → Keeps Intact (again present id opts attempt now)
unfolding again
again-Intact present id opts attempt now =
    search (keeps_rules, intact_rules, download-Intact) depth 20
