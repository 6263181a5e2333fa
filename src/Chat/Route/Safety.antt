-- ===== src/Chat/Route/Safety.antt =====
-- The router keeps the database intact.
use dchat_desktop.Common.{ℕ, String, Option, some, List, ◌≡◌}
use dchat_desktop.Types.{Message, MessageData, ContentType}
use dchat_desktop.Types.Wire.{BurnOptions}
use dchat_desktop.Store.Db.{IsIntact}
use dchat_desktop.Store.Intact.Rules.{Intact, intact_rules}
use dchat_desktop.Exec.{World, Exec, Keeps, with_some, keeps_rules, Keeps-with_some}
use dchat_desktop.Chat.Notify.{View, show_notification}
use dchat_desktop.Chat.Sessions.Keeping.{get_or_create_session-Intact}
use dchat_desktop.Chat.Receipts.{handle_receipt, handle_read}
use dchat_desktop.Chat.Burn.{handle_contact_options, sync_burn}
use dchat_desktop.Chat.Incoming.{
  Services, GroupHandlers, TopicHandlers, DiscoveryHandlers, ProfileHandlers, deliver,
  handle_direct, store_inbound, fetch_media,
}
use dchat_desktop.Chat.Route.{
  Incoming, malformed, announcement, data_message, Fresh, handle_incoming, route_announcement,
  find_announcement, route_topic, route_direct, route_message,
}

-- Every method of the injected services that the router calls keeps `P`.
pub record Respects (P : World → Type 0) (s : Services) : Type 0 where
  pub group_control :
      (g : GroupHandlers)
      → s.groups ≡ some g
      → (src : String) (d : MessageData) → Keeps P (g.control src d)
  pub group_message :
      (g : GroupHandlers)
      → s.groups ≡ some g
      → (src : String) (d : MessageData) → Keeps P (g.group_message src d)
  pub topic_control :
      (t : TopicHandlers)
      → s.topics ≡ some t
      → (src : String) (d : MessageData) → Keeps P (t.topic_control src d)
  pub topic_message :
      (t : TopicHandlers)
      → s.topics ≡ some t
      → (src : String) (d : MessageData) → Keeps P (t.topic_message src d)
  pub broadcast :
      (x : DiscoveryHandlers)
      → s.discovery ≡ some x
      → (src : String) (d : MessageData) → Keeps P (x.broadcast src d)
  pub announcement :
      (x : DiscoveryHandlers)
      → s.discovery ≡ some x
      → (src text : String) → Keeps P (x.announcement src text)
  pub contact_message :
      (x : ProfileHandlers)
      → s.profile ≡ some x
      → (src : String) (d : MessageData) → Keeps P (x.contact_message src d)
  pub check_and_request :
      (x : ProfileHandlers)
      → s.profile ≡ some x
      → (src : String) (d : MessageData) → Keeps P (x.check_and_request src d)
  pub voice :
      (v : String → ContentType → String → Exec (Unit {0}))
      → s.voice ≡ some v
      → (src : String) (t : ContentType) (content : String) → Keeps P (v src t content)

handle_receipt-Intact : (id : String) (now : ℕ) → Keeps Intact (handle_receipt id now)
unfolding handle_receipt
handle_receipt-Intact id now = search (keeps_rules, intact_rules) depth 10

handle_read-Intact : (ids : List String) (now : ℕ) → Keeps Intact (handle_read ids now)
unfolding handle_read
handle_read-Intact ids now = search (keeps_rules, intact_rules) depth 10

sync_burn-Intact : (src : String) (seconds at now : ℕ) → Keeps Intact (sync_burn src seconds at now)
unfolding sync_burn
sync_burn-Intact src seconds at now = search (keeps_rules, intact_rules) depth 10

handle_contact_options-Intact :
    (src : String) (o : Option BurnOptions) (id : String) (now : ℕ)
    → Keeps Intact (handle_contact_options src o id now)
unfolding handle_contact_options
handle_contact_options-Intact src o id now =
    search (keeps_rules, intact_rules, get_or_create_session-Intact) depth 20

pub show_notification-Intact :
    (view : View) (title body id : String) → Keeps Intact (show_notification view title body id)
unfolding show_notification
show_notification-Intact view title body id = search (keeps_rules, intact_rules) depth 10

store_inbound-Intact :
    (session src : String) (d : MessageData) (m : Message) (now : ℕ)
    → Keeps Intact (store_inbound session src d m now)
unfolding store_inbound
store_inbound-Intact session src d m now =
    search (keeps_rules, intact_rules, sync_burn-Intact) depth 20

fetch_media-Intact :
    (services : Services) (d : MessageData) (m : Message) (now : ℕ)
    → Keeps Intact (fetch_media services d m now)
unfolding fetch_media
fetch_media-Intact services d m now = search (keeps_rules, intact_rules) depth 20

module _ (services : Services) (h : Respects Intact services) (view : View) (src : String) where
  deliver-Intact :
      (own : String) (d : MessageData) (receipt_id : String) (now : ℕ)
      → Keeps Intact (deliver services view src own d receipt_id now)
  unfolding deliver
  deliver-Intact own d receipt_id now =
      search
        (
          keeps_rules, intact_rules, get_or_create_session-Intact, store_inbound-Intact,
          fetch_media-Intact, show_notification-Intact, h.check_and_request,
        )
        depth 20

  handle_direct-Intact :
      (d : MessageData) (receipt_id : String) (now : ℕ)
      → Keeps Intact (handle_direct services view src d receipt_id now)
  unfolding handle_direct
  handle_direct-Intact d receipt_id now =
      search (keeps_rules, intact_rules, deliver-Intact) depth 20

  route_announcement-Intact :
      (content : String) (fresh : Fresh)
      → Keeps Intact (route_announcement services view src content fresh)
  unfolding route_announcement
  route_announcement-Intact content fresh =
      search (keeps_rules, h.announcement, h.topic_message) depth 20

  find_announcement-Intact :
      (d : MessageData) (t : ContentType) → Keeps Intact (find_announcement services view src d t)
  unfolding find_announcement
  find_announcement-Intact d t = search (keeps_rules, h.announcement) depth 20

  route_topic-Intact :
      (topics : TopicHandlers) (d : MessageData) (t : ContentType)
      → services.topics ≡ some topics
      → Keeps Intact (route_topic services view src topics d t)
  unfolding route_topic
  route_topic-Intact topics d t e =
      search (keeps_rules, h.topic_message topics e, find_announcement-Intact) depth 20

  route_direct-Intact :
      (d : MessageData) (burn : Option BurnOptions) (t : ContentType) (fresh : Fresh)
      → Keeps Intact (route_direct services view src d burn t fresh)
  unfolding route_direct
  route_direct-Intact d burn t fresh =
      search
        (
          keeps_rules, h.contact_message, handle_contact_options-Intact, handle_receipt-Intact,
          handle_read-Intact, handle_direct-Intact,
        )
        depth 20

  voice-Intact :
      (t : ContentType) (content : String)
      → Keeps Intact (with_some services.voice (λ v. v src t content))
  voice-Intact t content = Keeps-with_some services.voice _ (λ v e. h.voice v e src t content)

  route_message-Intact :
      (d : MessageData) (burn : Option BurnOptions) (t : ContentType) (fresh : Fresh)
      → Keeps Intact (route_message services view src d burn t fresh)
  unfolding route_message
  route_message-Intact d burn t fresh =
      search
        (
          keeps_rules, h.group_control, h.group_message, h.topic_control, h.broadcast, voice-Intact,
          route_topic-Intact, route_direct-Intact,
        )
        depth 30

  handle_incoming-Intact :
      (x : Incoming) (fresh : Fresh) → Keeps Intact (handle_incoming services view src x fresh)
  unfolding handle_incoming
  handle_incoming-Intact malformed fresh = search keeps_rules
  handle_incoming-Intact (announcement content) fresh = route_announcement-Intact content fresh
  handle_incoming-Intact (data_message d burn) fresh = route_message-Intact d burn _ fresh

  -- If the injected services keep the database intact, so does every incoming payload, whether the
  -- handler returns or throws: no primary key is doubled, and every message belongs to a session.
  pub handle_incoming-IsIntact :
      (x : Incoming) (fresh : Fresh) (w : World)
      → IsIntact w.db
      → IsIntact (handle_incoming services view src x fresh w).1.db
  handle_incoming-IsIntact x fresh w v =
      ((handle_incoming-Intact x fresh).at w (record { db = v })).db
