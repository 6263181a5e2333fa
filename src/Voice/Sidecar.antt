-- ===== src/Voice/Sidecar.antt =====
-- `handleSidecarMessage` for the events of the sidecar, and the end of the sidecar process.
use dchat_desktop.Common.{
  ℕ, String, Bool, true, false, Option, none, some, ◌==◌, string_eq, if◌then◌else◌,
}
use dchat_desktop.Voice.State.{
  Call, CallState, ringing, connecting, connected, ended, Service, reject, on_audio, on_video,
  send_command, push, end_call_internal, set_active,
}

-- The events that the sidecar sends by itself; a frame without bytes is dropped before.
pub data SidecarEvent : Type 0 where
  incoming_session : (session : String) → SidecarEvent
  audio_data video_data : (frame : String) → SidecarEvent
  session_closed : (session : String) → SidecarEvent
  sidecar_error : SidecarEvent

abbrev is_waiting : CallState → Bool
is_waiting ringing = true
is_waiting connecting = true
is_waiting _ = false

-- A session of the other side, for a call that has none: it is linked, and a call that rings or
-- connects is connected.
link_incoming : String → ℕ → Call → Service → Service
link_incoming session now c s =
    let c' = record c { tuna_session = some session } in
    if is_waiting c.state
    then set_active (record c' { state = connected; started_at = some now }) s
    else record s { active = some c' }

-- Without an active call the session is kept for an incoming one.
keep_session : String → Service → Service
keep_session session s = elim s.incoming [
  | none ↦ s
  | some _ ↦ record s { pending_tuna_session = some session }
]

on_incoming_session : String → ℕ → Service → Service
unfolding link_incoming keep_session
on_incoming_session session now s = elim s.active [
  | none ↦ keep_session session s
  | some c ↦ elim c.tuna_session [
    | none ↦ link_incoming session now c s
    | some _ ↦ send_command (reject session) s
  ]
]

abbrev is_session : String → Option String → Bool
is_session session (some t) = t == session
is_session session none = false

abbrev has_session : String → Option Call → Bool
has_session session none = false
has_session session (some c) = is_session session c.tuna_session

abbrev call_id_of : Option Call → Option String
call_id_of none = none
call_id_of (some c) = some c.call_id

unfoldable pub handle_sidecar_event : SidecarEvent → ℕ → Service → Service
unfolding on_incoming_session end_call_internal
handle_sidecar_event (incoming_session session) now s = on_incoming_session session now s
handle_sidecar_event (audio_data frame) now s = push (on_audio (call_id_of s.active) frame) s
handle_sidecar_event (video_data frame) now s = push (on_video (call_id_of s.active) frame) s
handle_sidecar_event (session_closed session) now s =
    if has_session session s.active then end_call_internal s else s
handle_sidecar_event sidecar_error now s = s

-- `stop`, after the answer to `shutdown`.
unfoldable pub stopped : Service → Service
stopped s = record s { sidecar = false; sidecar_ready = false }

abbrev is_ended : CallState → Bool
is_ended ended = true
is_ended _ = false

-- The sidecar process ended by itself.
unfoldable pub sidecar_exited : Service → Service
unfolding end_call_internal
sidecar_exited s =
    let s' = record s { sidecar = false; sidecar_ready = false } in
    elim s.active [ none ↦ s' | some c ↦ if is_ended c.state then s' else end_call_internal s' ]
