-- ===== src/Group/Control.antt =====
-- private-group-service.ts: `handleIncomingControlMessage`.
use dchat_desktop.Common.{ℕ, String}
use dchat_desktop.Types.{
  MessageData, ContentType, group_invitation, group_accept, group_subscribe, group_quit,
  group_option_request, group_option_response, group_member_request, group_member_response,
}
use dchat_desktop.Chat.Incoming.Kinds.{or_text}
use dchat_desktop.Group.Platform.{Platform}
use dchat_desktop.Group.Joining.{on_invitation_received}
use dchat_desktop.Group.Welcome.{on_invitee_accept, on_member_subscribe}
use dchat_desktop.Group.Leaving.{on_member_quit}
use dchat_desktop.Group.Sync.{
  on_member_request, on_member_response, on_option_request, on_option_response,
}
use dchat_desktop.Exec.{Exec, pure}

module _ (p : Platform) (src : String) (d : MessageData) (uuid : ℕ → String) (now : ℕ) where
  -- A message without a content type goes the way of a text.
  unfoldable pub handle_kind : ContentType → Exec (Unit {0})
  unfolding pure
  handle_kind group_invitation = on_invitation_received p src d now
  handle_kind group_accept = on_invitee_accept p src d uuid now
  handle_kind group_subscribe = on_member_subscribe src d now
  handle_kind group_quit = on_member_quit p src d now
  handle_kind group_member_response = on_member_response p d now
  handle_kind group_member_request = on_member_request p src d (uuid 0) now
  handle_kind group_option_request = on_option_request p src d (uuid 0) now
  handle_kind group_option_response = on_option_response p d now
  handle_kind _ = pure tt

  unfoldable pub handle_control : Exec (Unit {0})
  unfolding handle_kind
  handle_control = handle_kind (or_text d.content_type)
