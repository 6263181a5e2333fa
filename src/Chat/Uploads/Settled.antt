-- ===== src/Chat/Uploads/Settled.antt =====
-- What becomes of the status of an upload, in a direct chat and in a group.
use dchat_desktop.Common.{ℕ, String, Option, none, some, refl, subst, sym, inr}
use dchat_desktop.Types.{Message, MessageOptions, Contact, sent, failed}
use dchat_desktop.Types.Wire.{message}
use dchat_desktop.Group.Messages.{try_catch, finish_with}
use dchat_desktop.Group.Uploads.{Uploaded, uploaded_message, store_uploaded, finish_upload}
use dchat_desktop.Group.Uploads.Settled.{
  IsSettled, finish_with-IsSettled, next-SettlesOrThrows, or_try-IsSettled, store_uploaded-ok,
  finish_upload-settles,
}
use dchat_desktop.Chat.Uploads.{finish_stored, finish_image, finish_audio_or_file, direct_data}
use dchat_desktop.Exec.{Exec, World, ◌>>◌, ◌>>=◌, send_no_reply, bind_of_ok}

module _ (to : String) (m : Message) (r : Uploaded) (options : MessageOptions) (now : ℕ) where
  send : Exec Message
  send =
      send_no_reply to (message (direct_data m r.content options))
      >> finish_with sent (uploaded_message r m) now

  send_or_fail : Exec Message
  send_or_fail = try_catch send (finish_with failed (uploaded_message r m) now)

  send_or_fail-IsSettled : (w : World) → IsSettled m.id (send_or_fail w)
  unfolding try_catch send_or_fail send ◌>>=◌
  send_or_fail-IsSettled w =
      let x = send w in
      or_try-IsSettled (uploaded_message r m) now x.0 x.1
        (next-SettlesOrThrows (uploaded_message r m) now _ _)

  finish_stored-IsSettled : (w : World) → IsSettled m.id (finish_stored to m r options now w)
  unfolding finish_stored send_or_fail send
  finish_stored-IsSettled w =
      subst (IsSettled m.id)
        (sym (
          bind_of_ok (store_uploaded m r now) (λ _. send_or_fail) w tt
            (store_uploaded-ok "" "" m r now w)))
        (send_or_fail-IsSettled (store_uploaded m r now w).1)

module _ (to : String) (m : Message) (contact : Option Contact) (version : Option String) (now : ℕ)
    (w : World) where
  finish_image-IsSettled :
      (uploaded : Option Uploaded)
      → IsSettled m.id (finish_image to m contact version uploaded now w)
  unfolding finish_image
  finish_image-IsSettled none = finish_with-IsSettled failed m now w (inr refl)
  finish_image-IsSettled (some r) = finish_stored-IsSettled to m _ _ now w

  finish_audio_or_file-IsSettled :
      (uploaded : Option Uploaded)
      → IsSettled m.id (finish_audio_or_file to m contact version uploaded now w)
  unfolding finish_audio_or_file
  finish_audio_or_file-IsSettled none = finish_with-IsSettled failed m now w (inr refl)
  finish_audio_or_file-IsSettled (some r) = finish_stored-IsSettled to m r _ now w

  -- The upload of an image, a recording or a file in a direct chat, and of an image or a file in a group,
  -- ends whatever the upload service and the connection do: the method returns, the message it returns
  -- is sent or failed, and the row of the message, if it is there, has that status. No such message
  -- stays at sending.
  pub uploads_settle :
      (uploaded : Option Uploaded) (group_id own : String)
      → IsSettled m.id (finish_image to m contact version uploaded now w)
        × IsSettled m.id (finish_audio_or_file to m contact version uploaded now w)
        × IsSettled m.id (finish_upload group_id own m uploaded now w)
  uploads_settle uploaded group_id own = (
    finish_image-IsSettled uploaded,
    finish_audio_or_file-IsSettled uploaded,
    finish_upload-settles group_id own m uploaded now w,
  )
