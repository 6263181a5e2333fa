-- ===== src/Voice/Signals.antt =====
-- `handleSignalingMessage`: the signals of the other side.
use dchat_desktop.Common.{
  ℕ, String, Bool, false, Option, none, some, ◌==◌, string_eq, if◌then◌else◌,
}
use dchat_desktop.Voice.State.{
  Call, CallType, video, is_video, IncomingCall, Service, connecting, connected, Signal, invite,
  accept, decline, end, video_toggle, on_incoming_call, send_then, push, is_call, or_voice,
  end_call_internal, set_active,
}
use dchat_desktop.Voice.Calls.{hang_up}

incoming_call : String → String → Option String → Option CallType → IncomingCall
incoming_call src id addrs t = record {
  call_id = id;
  remote_address = src;
  pub_addrs = addrs;
  call_type = or_voice t;
}

handle_incoming_invite : String → String → Option String → Option CallType → Service → Service
unfolding incoming_call
handle_incoming_invite src id addrs t s = elim s.active [
  | some _ ↦ send_then src (decline id) (λ r. r) s
  | none ↦
      push (on_incoming_call (some (incoming_call src id addrs t)))
        (record s { incoming = some (incoming_call src id addrs t) })
]

-- The TUNA session may have come before the accept signal.
accepted : ℕ → Call → Call
accepted now c = elim c.tuna_session [
  | some _ ↦ record c { state = connected; started_at = some now }
  | none ↦ record c { state = connecting }
]

handle_remote_accept : String → ℕ → Service → Service
unfolding accepted
handle_remote_accept id now s = elim s.active [
  | none ↦ s
  | some c ↦ if c.call_id == id then set_active (accepted now c) s else s
]

handle_remote_decline : String → Service → Service
unfolding end_call_internal
handle_remote_decline id s = if is_call id s.active then end_call_internal s else s

abbrev is_some_video : Option CallType → Bool
is_some_video (some t) = is_video t
is_some_video none = false

toggled : Option CallType → Call → Call
toggled t c = if is_some_video t then record c { call_type = video } else c

handle_remote_video_toggle : String → Option CallType → Service → Service
unfolding toggled
handle_remote_video_toggle id t s = elim s.active [
  | none ↦ s
  | some c ↦ if c.call_id == id then set_active (toggled t c) s else s
]

handle_remote_end : String → Service → Service
unfolding end_call_internal
handle_remote_end id s = elim s.active [
  | none ↦ s
  | some c ↦ if c.call_id == id then end_call_internal (hang_up c.tuna_session s) else s
]

unfoldable pub handle_signal : String → Signal → ℕ → Service → Service
unfolding handle_incoming_invite handle_remote_accept handle_remote_decline handle_remote_end
    handle_remote_video_toggle
handle_signal src (invite id addrs t) now s = handle_incoming_invite src id addrs t s
handle_signal src (accept id) now s = handle_remote_accept id now s
handle_signal src (decline id) now s = handle_remote_decline id s
handle_signal src (end id) now s = handle_remote_end id s
handle_signal src (video_toggle id t enabled) now s = handle_remote_video_toggle id t s
