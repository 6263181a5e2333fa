-- ===== src/Topic/Events.antt =====
-- topic-service.ts: what happens to the service, one step at a time. A method that awaits the network
-- or a media service is a step up to the `await` and a step after it, so that the steps of several
-- methods interleave.
use dchat_desktop.Common.{ℕ, String, Bool, Option, List, [], ◌∷◌}
use dchat_desktop.Types.{Message, MessageData, ContentType}
use dchat_desktop.Group.Messages.{Media}
use dchat_desktop.Group.Uploads.{Uploaded}
use dchat_desktop.Topic.Joining.{
  store_topic, store_subscribers, announce_join, begin_leave, finish_leave, get_subscribers,
}
use dchat_desktop.Topic.Messages.{send_topic_message, handle_topic_control, handle_topic_message}
use dchat_desktop.Topic.Uploads.{begin_topic_upload, finish_topic_upload, finish_topic_audio}
use dchat_desktop.Exec.{World}

-- `subscribed` follows the subscription of a join, `subscribers_came` the question for the addresses.
pub data Event : Type 0 where
  control_arrives message_arrives : (src : String) → MessageData → Event
  subscribed : (name : String) → Event
  subscribers_came : (name : String) → List String → Event
  announces_join : (name own id : String) → Event
  leaves : (name id : String) → Event
  unsubscribed : (name : String) → Event
  lists : (name : String) → Event
  sends : (name content : String) → ContentType → (id : String) → Event
  uploads : Bool → (name preview id : String) → Event
  uploaded : (name own : String) → Message → Option Uploaded → Event
  recorded : (name id own : String) → (sent_at : ℕ) → Uploaded → Event

module _ (media : Media) where
  unfoldable pub run : Event → ℕ → World → World
  run (control_arrives src d) now w = (handle_topic_control src d now w).1
  run (message_arrives src d) now w = (handle_topic_message media src d now w).1
  run (subscribed name) now w = (store_topic name now w).1
  run (subscribers_came name addresses) now w = (store_subscribers name addresses now w).1
  run (announces_join name own id) now w = (announce_join name own id now w).1
  run (leaves name id) now w = (begin_leave name id now w).1
  run (unsubscribed name) now w = (finish_leave name w).1
  run (lists name) now w = (get_subscribers name now w).1
  run (sends name content t id) now w = (send_topic_message name content t id now w).1
  run (uploads present name preview id) now w = (begin_topic_upload present name preview id now w).1
  run (uploaded name own m r) now w = (finish_topic_upload name own m r now w).1
  run (recorded name id own sent_at r) now w = (finish_topic_audio name id own sent_at r now w).1

  unfoldable pub run_all : List (Event × ℕ) → World → World
  unfolding run
  run_all [] w = w
  run_all ((e, now) ∷ es) w = run_all es (run e now w)
