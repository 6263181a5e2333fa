-- ===== src/Discovery/Routed.antt =====
-- The group, topic and discovery services behind the router of chat-service.ts.
use dchat_desktop.Common.{ℕ, String, Option, some, List, subst, eq_of_some}
use dchat_desktop.Types.{MessageData}
use dchat_desktop.Store.Db.{IsIntact}
use dchat_desktop.Store.Intact.Rules.{Intact}
use dchat_desktop.Chat.Notify.{View}
use dchat_desktop.Chat.Incoming.{Services, TopicHandlers, DiscoveryHandlers}
use dchat_desktop.Chat.Route.{Incoming, Fresh, handle_incoming}
use dchat_desktop.Chat.Route.Safety.{Respects, handle_incoming-IsIntact}
use dchat_desktop.Group.Platform.{Platform}
use dchat_desktop.Group.Messages.{Media}
use dchat_desktop.Group.Keeping.Routed.{with_group_service, group_handlers-Respects}
use dchat_desktop.Topic.Messages.{handle_topic_control, handle_topic_message}
use dchat_desktop.Topic.Keeping.{handle_topic_control-Intact, handle_topic_message-Intact}
use dchat_desktop.Discovery.Cache.{Files}
use dchat_desktop.Discovery.Receiving.{
  RawGroup, CompactGroup, handle_announcement, handle_broadcast,
}
use dchat_desktop.Discovery.Keeping.{handle_announcement-Intact, handle_broadcast-Intact}
use dchat_desktop.Exec.{World, Keeps}

-- What the parsers find in a text, and in the object of a broadcast.
pub record Parsers : Type 0 where
  pub announced : String → Option String
  pub groups : String → Option (List RawGroup)
  pub compact : MessageData → Option (List CompactGroup)

module _ (files : Files) (parsers : Parsers) (media : Media) (now : ℕ) where
  abbrev pub topic_handlers : TopicHandlers
  topic_handlers = record {
    topic_control = λ src d. handle_topic_control src d now;
    topic_message = λ src d. handle_topic_message media src d now;
  }

  abbrev pub discovery_handlers : DiscoveryHandlers
  discovery_handlers = record {
    broadcast = λ src d. handle_broadcast src (parsers.compact d) now;
    announcement = λ src text. handle_announcement files src (parsers.groups text) now;
    announced = parsers.announced;
  }

  abbrev pub with_topics : Services → Services
  with_topics services = record services {
    topics = some topic_handlers;
    discovery = some discovery_handlers;
  }

  with_topics-Respects :
      (services : Services) → Respects Intact services → Respects Intact (with_topics services)
  with_topics-Respects services h = record {
    group_control = h.group_control;
    group_message = h.group_message;
    topic_control = λ t e src d.
        subst (λ x. Keeps Intact (x.topic_control src d)) (eq_of_some _ t e)
          (handle_topic_control-Intact src d now);
    topic_message = λ t e src d.
        subst (λ x. Keeps Intact (x.topic_message src d)) (eq_of_some _ t e)
          (handle_topic_message-Intact media src d now);
    broadcast = λ x e src d.
        subst (λ y. Keeps Intact (y.broadcast src d)) (eq_of_some _ x e)
          (handle_broadcast-Intact src (parsers.compact d) now);
    announcement = λ x e src text.
        subst (λ y. Keeps Intact (y.announcement src text)) (eq_of_some _ x e)
          (handle_announcement-Intact files src (parsers.groups text) now);
    contact_message = h.contact_message;
    check_and_request = h.check_and_request;
    voice = h.voice;
  }

  -- With the group, topic and discovery services of this program behind the router, and profile and
  -- call services that keep the database intact, every incoming payload keeps it intact, whether its
  -- handler returns or throws.
  pub handle_incoming-with_services :
      (p : Platform) (uuid : ℕ → String) (services : Services) (view : View) (src : String)
      → (x : Incoming) (fresh : Fresh) (w : World) → Respects Intact services
      → IsIntact w.db
      → IsIntact
          (handle_incoming
            (with_topics (with_group_service p media uuid now services))
            view
            src
            x
            fresh
            w).1.db
  handle_incoming-with_services p uuid services view src x fresh w h v =
      handle_incoming-IsIntact _
        (with_topics-Respects _ (group_handlers-Respects p media uuid now services h)) view src x
        fresh w v
