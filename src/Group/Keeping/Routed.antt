-- ===== src/Group/Keeping/Routed.antt =====
-- The group service behind the router of chat-service.ts.
use dchat_desktop.Common.{ℕ, String, some, subst, eq_of_some}
use dchat_desktop.Store.Db.{IsIntact}
use dchat_desktop.Store.Intact.Rules.{Intact}
use dchat_desktop.Chat.Notify.{View}
use dchat_desktop.Chat.Incoming.{Services, GroupHandlers}
use dchat_desktop.Chat.Route.{Incoming, Fresh, handle_incoming}
use dchat_desktop.Chat.Route.Safety.{Respects, handle_incoming-IsIntact}
use dchat_desktop.Group.Platform.{Platform}
use dchat_desktop.Group.Messages.{Media, handle_group_message}
use dchat_desktop.Group.Control.{handle_control}
use dchat_desktop.Group.Keeping.Handlers.{handle_control-Intact}
use dchat_desktop.Group.Keeping.Methods.{handle_group_message-Intact}
use dchat_desktop.Exec.{World, Keeps}

module _ (p : Platform) (media : Media) (uuid : ℕ → String) (now : ℕ) where
  -- The service as the chat service sees it.
  abbrev pub group_handlers : GroupHandlers
  group_handlers = record {
    control = λ src d. handle_control p src d uuid now;
    group_message = λ src d. handle_group_message media src d now;
  }

  abbrev pub with_group_service : Services → Services
  with_group_service services = record services { groups = some group_handlers }

  pub group_handlers-Respects :
      (services : Services)
      → Respects Intact services
      → Respects Intact (with_group_service services)
  group_handlers-Respects services h = record {
    group_control = λ g e src d.
        subst (λ x. Keeps Intact (x.control src d)) (eq_of_some _ g e)
          (handle_control-Intact p src d uuid now);
    group_message = λ g e src d.
        subst (λ x. Keeps Intact (x.group_message src d)) (eq_of_some _ g e)
          (handle_group_message-Intact media src d now);
    topic_control = h.topic_control;
    topic_message = h.topic_message;
    broadcast = h.broadcast;
    announcement = h.announcement;
    contact_message = h.contact_message;
    check_and_request = h.check_and_request;
    voice = h.voice;
  }

  -- With the group service of this program behind the router, and other services that keep the
  -- database intact, every incoming payload keeps it intact, group messages and the control messages
  -- of a group included.
  pub handle_incoming-with_group_service :
      (services : Services) (view : View) (src : String) (x : Incoming) (fresh : Fresh) (w : World)
      → Respects Intact services
      → IsIntact w.db
      → IsIntact (handle_incoming (with_group_service services) view src x fresh w).1.db
  handle_incoming-with_group_service services view src x fresh w h v =
      handle_incoming-IsIntact _ (group_handlers-Respects services h) view src x fresh w v
