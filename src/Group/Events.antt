-- ===== src/Group/Events.antt =====
-- private-group-service.ts: what happens to the service, one event for each stretch of code that runs
-- without an `await` that others could come between. A second half is given what the first half has
-- read, or anything else.
use dchat_desktop.Common.{ℕ, String, Bool, Option, List, [], ◌∷◌}
use dchat_desktop.Types.{Message, MessageData, MessageOptions, ContentType}
use dchat_desktop.Group.Uploads.{
  Uploaded, begin_media, begin_upload, finish_upload, finish_audio, download_thumbnail_then_full,
}
use dchat_desktop.Types.Group.{PrivateGroup, Member}
use dchat_desktop.Group.Platform.{Platform, Identity}
use dchat_desktop.Group.Owner.{create_group, begin_invite, finish_invite, kick_out}
use dchat_desktop.Group.Joining.{begin_accept, finish_accept}
use dchat_desktop.Group.Leaving.{begin_quit, finish_quit}
use dchat_desktop.Group.Messages.{Media, send_group_message, handle_group_message}
use dchat_desktop.Group.Sync.{get_members, request_member_sync}
use dchat_desktop.Group.Control.{handle_control}
use dchat_desktop.Exec.{World}

pub data Event : Type 0 where
  control_arrives message_arrives : (src : String) → MessageData → Event
  creates : (name : String) → Event
  invites : (group_id target : String) → Event
  invitation_signed : (group_id target : String) → String × PrivateGroup → Event
  accepts : (group_id : String) → Event
  acceptance_signed : (group_id : String) → String × Member → Event
  quits : (group_id : String) → Event
  quit_signed : (group_id own : String) → Event
  kicks : (group_id target : String) → Event
  sends : (group_id content : String) → ContentType → Event
  uploads : (present : Bool) → (group_id preview : String) → Event
  uploaded : (group_id own : String) → Message → Option Uploaded → Event
  records : (present : Bool) → (group_id : String) → Event
  recorded : (group_id : String) → (sent_at : ℕ) → String × PrivateGroup → Uploaded → Event
  downloads :
      (present : Bool)
      → Message
      → MessageOptions
      → (thumbnail : Option String) → (ℕ → Option String)
      → Event
  lists_members requests_sync : (group_id : String) → Event

-- An event, with its fresh ids and its time.
pub record Occurrence : Type 0 where
  pub event : Event
  pub uuid : ℕ → String
  pub now : ℕ

module _ (p : Platform) (me : Identity) (media : Media) where
  -- The world that an event leaves, whether its code returns or throws.
  unfoldable pub run : Event → (ℕ → String) → ℕ → World → World
  run (control_arrives src d) uuid now w = (handle_control p src d uuid now w).1
  run (message_arrives src d) uuid now w = (handle_group_message media src d now w).1
  run (creates name) uuid now w = (create_group p me name (uuid 0) now w).1
  run (invites group_id target) uuid now w = (begin_invite group_id target w).1
  run (invitation_signed group_id target checked) uuid now w =
      (finish_invite p me group_id target checked uuid now w).1
  run (accepts group_id) uuid now w = (begin_accept p group_id w).1
  run (acceptance_signed group_id checked) uuid now w =
      (finish_accept p me group_id checked uuid now w).1
  run (quits group_id) uuid now w = (begin_quit group_id w).1
  run (quit_signed group_id own) uuid now w = (finish_quit p me group_id own (uuid 0) now w).1
  run (kicks group_id target) uuid now w = (kick_out group_id target (uuid 0) now w).1
  run (sends group_id content t) uuid now w =
      (send_group_message group_id content t (uuid 0) now w).1
  run (uploads present group_id preview) uuid now w =
      (begin_upload present group_id preview (uuid 0) now w).1
  run (uploaded group_id own m r) uuid now w = (finish_upload group_id own m r now w).1
  run (records present group_id) uuid now w = (begin_media present group_id w).1
  run (recorded group_id sent_at checked r) uuid now w =
      (finish_audio group_id (uuid 0) sent_at checked r now w).1
  run (downloads present m opts thumbnail attempt) uuid now w =
      (download_thumbnail_then_full present m opts thumbnail attempt now w).1
  run (lists_members group_id) uuid now w = (get_members group_id now w).1
  run (requests_sync group_id) uuid now w = (request_member_sync group_id (uuid 0) now w).1

  unfoldable pub run_all : List Occurrence → World → World
  unfolding run
  run_all [] w = w
  run_all (o ∷ os) w = run_all os (run o.event o.uuid o.now w)
