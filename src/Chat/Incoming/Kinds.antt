-- ===== src/Chat/Incoming/Kinds.antt =====
-- chat-service.ts, private-group-service.ts and voice-call-service.ts: the sets of content types by
-- which an incoming message is routed.
use dchat_desktop.Common.{Bool, true, false, Option, some, none}
use dchat_desktop.Types.{
  ContentType, text, text_extension, image, audio, video, file, ipfs, topic_subscribe,
  topic_unsubscribe, group_invitation, group_accept, group_subscribe, group_quit,
  group_option_request, group_option_response, group_member_request, group_member_response,
  voice_call_invite, voice_call_accept, voice_call_decline, voice_call_end, voice_call_video_toggle,
  receipt, read, contact, contact_options, discovery_broadcast,
}

-- DISPLAYABLE_TYPES
unfoldable pub is_displayable : ContentType → Bool
is_displayable text = true
is_displayable text_extension = true
is_displayable image = true
is_displayable audio = true
is_displayable video = true
is_displayable file = true
is_displayable ipfs = true
is_displayable _ = false

-- TOPIC_CONTROL_TYPES
unfoldable pub is_topic_control : ContentType → Bool
is_topic_control topic_subscribe = true
is_topic_control topic_unsubscribe = true
is_topic_control _ = false

-- PRIVATE_GROUP_CONTROL_TYPES
unfoldable pub is_group_control : ContentType → Bool
is_group_control group_invitation = true
is_group_control group_accept = true
is_group_control group_subscribe = true
is_group_control group_quit = true
is_group_control group_option_request = true
is_group_control group_option_response = true
is_group_control group_member_request = true
is_group_control group_member_response = true
is_group_control _ = false

-- VOICE_CALL_CONTENT_TYPES
unfoldable pub is_voice_call : ContentType → Bool
is_voice_call voice_call_invite = true
is_voice_call voice_call_accept = true
is_voice_call voice_call_decline = true
is_voice_call voice_call_end = true
is_voice_call voice_call_video_toggle = true
is_voice_call _ = false

unfoldable pub is_text : ContentType → Bool
is_text text = true
is_text text_extension = true
is_text _ = false

unfoldable pub is_contact : ContentType → Bool
is_contact contact = true
is_contact _ = false

unfoldable pub is_contact_options : ContentType → Bool
is_contact_options contact_options = true
is_contact_options _ = false

unfoldable pub is_receipt : ContentType → Bool
is_receipt receipt = true
is_receipt _ = false

unfoldable pub is_read : ContentType → Bool
is_read read = true
is_read _ = false

unfoldable pub is_discovery : ContentType → Bool
is_discovery discovery_broadcast = true
is_discovery _ = false

unfoldable pub is_audio : ContentType → Bool
is_audio audio = true
is_audio _ = false

unfoldable pub is_ipfs : ContentType → Bool
is_ipfs ipfs = true
is_ipfs _ = false

-- `messageData.contentType ?? "text"`
abbrev pub or_text : Option ContentType → ContentType
or_text (some t) = t
or_text none = text
