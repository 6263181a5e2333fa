-- ===== src/Topic/Keeping.antt =====
-- topic-service.ts: the methods and the handlers keep the database intact.
use dchat_desktop.Common.{ℕ, String, Bool, Option, none, some, List}
use dchat_desktop.Types.{Message, MessageData, ContentType, topic_subscribe, topic_unsubscribe}
use dchat_desktop.Types.Topic.{Topic}
use dchat_desktop.Store.Intact.Rules.{Intact}
use dchat_desktop.Store.Intact.Topics.{topic_intact_rules}
use dchat_desktop.Chat.Route.Safety.{show_notification-Intact}
use dchat_desktop.Group.Messages.{Media}
use dchat_desktop.Group.Uploads.{Uploaded}
use dchat_desktop.Group.Keeping.{session_rules}
use dchat_desktop.Group.Keeping.Handlers.{throw_if-Intact}
use dchat_desktop.Group.Keeping.Methods.{try_catch-Intact, finish_with-Intact, send_to_all-Intact}
use dchat_desktop.Group.Keeping.Uploads.{store_uploaded-Intact}
use dchat_desktop.Topic.Session.{get_or_create_topic_session, push_topic_session}
use dchat_desktop.Topic.Joining.{
  Network, ask, begin_join, store_topic, store_subscribers, announce_join, create_and_join,
  refresh_subscribers, begin_leave, finish_leave, leave, unsubscribe, resync, show_topic,
  get_subscribers,
}
use dchat_desktop.Topic.Messages.{
  send_topic_message, recount_topic, change_subscribers, handle_topic_control, fetch_topic_media,
  show_topic_message, store_topic_message, handle_topic_message,
}
use dchat_desktop.Topic.Uploads.{
  begin_topic_media, begin_topic_upload, send_topic_uploaded, finish_topic_upload,
  finish_topic_audio,
}
use dchat_desktop.Exec.{Keeps}

pub get_or_create_topic_session-Intact :
    (name : String) (now : ℕ) → Keeps Intact (get_or_create_topic_session name now)
unfolding get_or_create_topic_session
get_or_create_topic_session-Intact name now = search session_rules depth 10

pub push_topic_session-Intact : (name : String) → Keeps Intact (push_topic_session name)
unfolding push_topic_session
push_topic_session-Intact name = search session_rules depth 10

pub ruleset topic_rules = (
  session_rules, topic_intact_rules, get_or_create_topic_session-Intact, push_topic_session-Intact,
)

pub ask-Intact : {A : Type 0} (answer : Option A) → Keeps Intact (ask answer)
unfolding ask
ask-Intact answer = search topic_rules depth 10

begin_join-Intact :
    (letter_or_number : ℕ → Bool) (name : String) → Keeps Intact (begin_join letter_or_number name)
unfolding begin_join
begin_join-Intact letter_or_number name = search (topic_rules, throw_if-Intact) depth 10

store_topic-Intact : (name : String) (now : ℕ) → Keeps Intact (store_topic name now)
unfolding store_topic
store_topic-Intact name now = search topic_rules depth 10

store_subscribers-Intact :
    (name : String) (addresses : List String) (now : ℕ)
    → Keeps Intact (store_subscribers name addresses now)
unfolding store_subscribers
store_subscribers-Intact name addresses now = search topic_rules depth 10

announce_join-Intact :
    (name own id : String) (joined_at : ℕ) → Keeps Intact (announce_join name own id joined_at)
unfolding announce_join
announce_join-Intact name own id joined_at = search topic_rules depth 15

pub create_and_join-Intact :
    (net : Network) (name id : String) (joined_at now : ℕ)
    → Keeps Intact (create_and_join net name id joined_at now)
unfolding create_and_join
create_and_join-Intact net name id joined_at now =
    search
      (
        topic_rules, begin_join-Intact, ask-Intact, store_topic-Intact, store_subscribers-Intact,
        announce_join-Intact,
      )
      depth 20

pub refresh_subscribers-Intact :
    (net : Network) (name : String) (now : ℕ) → Keeps Intact (refresh_subscribers net name now)
unfolding refresh_subscribers
refresh_subscribers-Intact net name now =
    search (topic_rules, ask-Intact, store_subscribers-Intact) depth 15

pub leave-Intact :
    (net : Network) (name id : String) (now : ℕ) → Keeps Intact (leave net name id now)
unfolding leave begin_leave unsubscribe finish_leave
leave-Intact net name id now = search (topic_rules, ask-Intact) depth 30

show_topic-Intact : (name : String) → Keeps Intact (show_topic name)
unfolding show_topic
show_topic-Intact name = search topic_rules depth 10

resync-Intact : (name : String) (count now : ℕ) (t : Topic) → Keeps Intact (resync name count now t)
unfolding resync
resync-Intact name count now t = search (topic_rules, show_topic-Intact) depth 15

pub get_subscribers-Intact : (name : String) (now : ℕ) → Keeps Intact (get_subscribers name now)
unfolding get_subscribers
get_subscribers-Intact name now = search (topic_rules, resync-Intact) depth 20

pub send_topic_message-Intact :
    (name content : String) (t : ContentType) (id : String) (now : ℕ)
    → Keeps Intact (send_topic_message name content t id now)
unfolding send_topic_message
send_topic_message-Intact name content t id now = search (topic_rules, send_to_all-Intact) depth 30

recount_topic-Intact : (name : String) (now : ℕ) → Keeps Intact (recount_topic name now)
unfolding recount_topic
recount_topic-Intact name now = search topic_rules depth 10

change_subscribers-Intact :
    (t : Option ContentType) (name src : String) (now : ℕ)
    → Keeps Intact (change_subscribers t name src now)
unfolding change_subscribers
change_subscribers-Intact (some topic_subscribe) name src now =
    search (topic_rules, recount_topic-Intact) depth 10
change_subscribers-Intact (some topic_unsubscribe) name src now =
    search (topic_rules, recount_topic-Intact) depth 10
change_subscribers-Intact t name src now = search topic_rules

pub handle_topic_control-Intact :
    (src : String) (d : MessageData) (now : ℕ) → Keeps Intact (handle_topic_control src d now)
unfolding handle_topic_control
handle_topic_control-Intact src d now =
    search (topic_rules, change_subscribers-Intact, show_topic-Intact) depth 20

fetch_topic_media-Intact :
    (media : Media) (d : MessageData) (m : Message) (now : ℕ)
    → Keeps Intact (fetch_topic_media media d m now)
unfolding fetch_topic_media
fetch_topic_media-Intact media d m now = search topic_rules depth 20

show_topic_message-Intact :
    (media : Media) (name by : String) (d : MessageData) (m : Message) (now : ℕ)
    → Keeps Intact (show_topic_message media name by d m now)
unfolding show_topic_message
show_topic_message-Intact media name by d m now =
    search (topic_rules, fetch_topic_media-Intact, show_notification-Intact) depth 30

store_topic_message-Intact :
    (media : Media) (name src : String) (d : MessageData) (now : ℕ)
    → Keeps Intact (store_topic_message media name src d now)
unfolding store_topic_message
store_topic_message-Intact media name src d now =
    search (topic_rules, show_topic_message-Intact) depth 30

pub handle_topic_message-Intact :
    (media : Media) (src : String) (d : MessageData) (now : ℕ)
    → Keeps Intact (handle_topic_message media src d now)
unfolding handle_topic_message
handle_topic_message-Intact media src d now =
    search (topic_rules, store_topic_message-Intact) depth 20

begin_topic_media-Intact : (present : Bool) → Keeps Intact (begin_topic_media present)
unfolding begin_topic_media
begin_topic_media-Intact present = search (topic_rules, throw_if-Intact) depth 10

pub begin_topic_upload-Intact :
    (present : Bool) (name preview id : String) (now : ℕ)
    → Keeps Intact (begin_topic_upload present name preview id now)
unfolding begin_topic_upload
begin_topic_upload-Intact present name preview id now =
    search (topic_rules, begin_topic_media-Intact) depth 30

send_topic_uploaded-Intact :
    (name own : String) (m : Message) (r : Uploaded) (now : ℕ)
    → Keeps Intact (send_topic_uploaded name own m r now)
unfolding send_topic_uploaded
send_topic_uploaded-Intact name own m r now = search (topic_rules, finish_with-Intact) depth 20

pub finish_topic_upload-Intact :
    (name own : String) (m : Message) (uploaded : Option Uploaded) (now : ℕ)
    → Keeps Intact (finish_topic_upload name own m uploaded now)
unfolding finish_topic_upload
finish_topic_upload-Intact name own m none now = finish_with-Intact _ m now
finish_topic_upload-Intact name own m (some r) now =
    search
      (
        topic_rules, try_catch-Intact, finish_with-Intact, send_topic_uploaded-Intact,
        store_uploaded-Intact,
      )
      depth 20

pub finish_topic_audio-Intact :
    (name id own : String) (sent_at : ℕ) (r : Uploaded) (now : ℕ)
    → Keeps Intact (finish_topic_audio name id own sent_at r now)
unfolding finish_topic_audio
finish_topic_audio-Intact name id own sent_at r now =
    search (topic_rules, send_to_all-Intact) depth 40
