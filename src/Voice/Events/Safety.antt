-- ===== src/Voice/Events/Safety.antt =====
-- What holds of the active call in every run.
use dchat_desktop.Common.{ℕ, String, Option, none, some, List, [], ◌∷◌, ◌≡◌, ◌≢◌, ◌⊎◌, arith}
use dchat_desktop.Voice.State.{
  Service, Call, Signal, ringing, connecting, connected, invite, accept, decline, end, video_toggle,
  new,
}
use dchat_desktop.Voice.Calls.{
  start_call, sidecar_initialized, sidecar_listening, pub_addrs_known, sidecar_dial_ready,
  send_invite, start_failed, accept_call, send_accept, dial_attempt, dial_succeeded, dial_failed,
  decline_call, end_call, toggle_video, send_audio_frame, send_video_frame,
}
use dchat_desktop.Voice.Signals.{handle_signal}
use dchat_desktop.Voice.Sidecar.{
  SidecarEvent, incoming_session, audio_data, video_data, session_closed, sidecar_error,
  handle_sidecar_event, stopped, sidecar_exited,
}
use dchat_desktop.Voice.Events.{
  Event, starts, initialized, listening, dial_ready, failed_to_start, has_stopped, exited, ends,
  has_addrs, invites, accepts, declines, accept_sent, dials, dialled, dial_fails, goes_online,
  toggles, sends_audio, sends_video, signalled, reported, step, run,
}

-- A call that rings or connects has no session and no start; a connected one has both; a call that
-- has ended is no longer active.
abbrev IsSoundCall : Call → Type 0
IsSoundCall c =
    (((c.state ≡ ringing) ⊎ (c.state ≡ connecting))
      × (c.tuna_session ≡ none)
      × (c.started_at ≡ none))
    ⊎ ((c.state ≡ connected) × (c.tuna_session ≢ none) × (c.started_at ≢ none))

abbrev pub IsSound : Option Call → Type 0
IsSound none = Unit
IsSound (some c) = IsSoundCall c

module _ (s : Service) (h : IsSound s.active) where
  signal-IsSound :
      (src : String) (x : Signal) (now : ℕ) → IsSound (handle_signal src x now s).active
  unfolding handle_signal
  signal-IsSound src (invite id addrs t) now = ground arith
  signal-IsSound src (accept id) now = ground arith
  signal-IsSound src (decline id) now = ground arith
  signal-IsSound src (end id) now = ground arith
  signal-IsSound src (video_toggle id t enabled) now = ground arith

  sidecar-IsSound : (x : SidecarEvent) (now : ℕ) → IsSound (handle_sidecar_event x now s).active
  unfolding handle_sidecar_event
  sidecar-IsSound (incoming_session session) now = ground arith
  sidecar-IsSound (audio_data frame) now = ground arith
  sidecar-IsSound (video_data frame) now = ground arith
  sidecar-IsSound (session_closed session) now = ground arith
  sidecar-IsSound sidecar_error now = h

  step-IsSound : (e : Event) → IsSound (step e s).active
  unfolding step start_call sidecar_initialized sidecar_listening pub_addrs_known sidecar_dial_ready
      send_invite start_failed accept_call send_accept dial_attempt dial_succeeded dial_failed
      decline_call end_call toggle_video send_audio_frame send_video_frame stopped sidecar_exited
  step-IsSound (starts target id t) = ground arith
  step-IsSound initialized = h
  step-IsSound listening = h
  step-IsSound dial_ready = h
  step-IsSound failed_to_start = ground arith
  step-IsSound has_stopped = h
  step-IsSound exited = ground arith
  step-IsSound ends = ground arith
  step-IsSound (has_addrs addrs) = h
  step-IsSound (invites target id t) = ground arith
  step-IsSound (accepts id) = ground arith
  step-IsSound (declines id) = ground arith
  step-IsSound (accept_sent id remote addrs) = ground arith
  step-IsSound (dials id target) = ground arith
  step-IsSound (dialled id session now) = ground arith
  step-IsSound (dial_fails id attempt) = ground arith
  step-IsSound (goes_online online) = h
  step-IsSound (toggles enabled) = ground arith
  step-IsSound (sends_audio frame) = ground arith
  step-IsSound (sends_video frame) = ground arith
  step-IsSound (signalled src signal now) = signal-IsSound src signal now
  step-IsSound (reported event now) = sidecar-IsSound event now

-- In every run of the service from a sound state, and `new` is one, the active call stays sound: while
-- it rings or connects it has no TUNA session and no start, while it is connected it has both, and a
-- call that has ended is not kept as the active one.
pub run-IsSound : (es : List Event) (s : Service) → IsSound s.active → IsSound (run es s).active
unfolding run
run-IsSound [] s h = h
run-IsSound (e ∷ es) s h = run-IsSound es (step e s) (step-IsSound s h e)

pub new-IsSound : IsSound new.active
unfolding new
new-IsSound = tt
