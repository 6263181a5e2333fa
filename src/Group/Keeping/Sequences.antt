-- ===== src/Group/Keeping/Sequences.antt =====
-- Any sequence of the events of the service keeps the database intact.
use dchat_desktop.Common.{ℕ, String, List, [], ◌∷◌}
use dchat_desktop.Store.Db.{IsIntact}
use dchat_desktop.Store.Intact.Rules.{Intact}
use dchat_desktop.Group.Platform.{Platform, Identity}
use dchat_desktop.Group.Messages.{Media}
use dchat_desktop.Group.Events.{
  Event, control_arrives, message_arrives, creates, invites, invitation_signed, accepts,
  acceptance_signed, quits, quit_signed, kicks, sends, uploads, uploaded, records, recorded,
  downloads, lists_members, requests_sync, Occurrence, run, run_all,
}
use dchat_desktop.Group.Keeping.Handlers.{handle_control-Intact}
use dchat_desktop.Group.Keeping.Methods.{
  handle_group_message-Intact, send_group_message-Intact, create_group-Intact, kick_out-Intact,
  get_members-Intact, request_member_sync-Intact, begin_invite-Intact, finish_invite-Intact,
  begin_accept-Intact, finish_accept-Intact, begin_quit-Intact, finish_quit-Intact,
}
use dchat_desktop.Group.Keeping.Uploads.{
  begin_media-Intact, begin_upload-Intact, finish_upload-Intact, finish_audio-Intact,
  download_thumbnail_then_full-Intact,
}
use dchat_desktop.Exec.{World}

module _ (p : Platform) (me : Identity) (media : Media) where
  run-Intact :
      (e : Event) (uuid : ℕ → String) (now : ℕ) (w : World)
      → Intact w
      → Intact (run p me media e uuid now w)
  unfolding run
  run-Intact (control_arrives src d) uuid now w = (handle_control-Intact p src d uuid now).at w
  run-Intact (message_arrives src d) uuid now w = (handle_group_message-Intact media src d now).at w
  run-Intact (creates name) uuid now w = (create_group-Intact p me name (uuid 0) now).at w
  run-Intact (invites group_id target) uuid now w = (begin_invite-Intact p me group_id target).at w
  run-Intact (invitation_signed group_id target checked) uuid now w =
      (finish_invite-Intact p me group_id target checked uuid now).at w
  run-Intact (accepts group_id) uuid now w = (begin_accept-Intact p me group_id).at w
  run-Intact (acceptance_signed group_id checked) uuid now w =
      (finish_accept-Intact p me group_id checked uuid now).at w
  run-Intact (quits group_id) uuid now w = (begin_quit-Intact p me group_id).at w
  run-Intact (quit_signed group_id own) uuid now w =
      (finish_quit-Intact p me group_id own (uuid 0) now).at w
  run-Intact (kicks group_id target) uuid now w =
      (kick_out-Intact group_id target (uuid 0) now).at w
  run-Intact (sends group_id content t) uuid now w =
      (send_group_message-Intact group_id content t (uuid 0) now).at w
  run-Intact (uploads present group_id preview) uuid now w =
      (begin_upload-Intact present group_id preview (uuid 0) now).at w
  run-Intact (uploaded group_id own m r) uuid now w =
      (finish_upload-Intact group_id own m r now).at w
  run-Intact (records present group_id) uuid now w = (begin_media-Intact present group_id).at w
  run-Intact (recorded group_id sent_at checked r) uuid now w =
      (finish_audio-Intact group_id (uuid 0) sent_at checked r now).at w
  run-Intact (downloads present m opts thumbnail attempt) uuid now w =
      (download_thumbnail_then_full-Intact present m opts thumbnail attempt now).at w
  run-Intact (lists_members group_id) uuid now w = (get_members-Intact group_id now).at w
  run-Intact (requests_sync group_id) uuid now w =
      (request_member_sync-Intact group_id (uuid 0) now).at w

  run_all-Intact : (os : List Occurrence) (w : World) → Intact w → Intact (run_all p me media os w)
  unfolding run_all
  run_all-Intact [] w v = v
  run_all-Intact (o ∷ os) w v = run_all-Intact os _ (run-Intact o.event o.uuid o.now w v)

  -- Whatever arrives and whatever the user does, in any order and with any interleaving of the
  -- methods that await a signature, and also where the code throws half way: no two groups have one
  -- id, no two members of a group one address, and every message of a group belongs to its session.
  pub run_all-IsIntact :
      (os : List Occurrence) (w : World) → IsIntact w.db → IsIntact (run_all p me media os w).db
  run_all-IsIntact os w v = (run_all-Intact os w (record { db = v })).db
