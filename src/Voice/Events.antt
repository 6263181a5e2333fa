-- ===== src/Voice/Events.antt =====
-- The service under every order of the events: what the user does, what arrives, and what follows
-- each `await`. A continuation may come at any time, also when it was never started, so the runs of
-- the program are among these.
pub mod Safety
pub mod Races
pub mod Handshake
pub mod Dialling
use dchat_desktop.Common.{ℕ, String, Bool, Option, List, [], ◌∷◌}
use dchat_desktop.Voice.State.{Service, CallType, Signal}
use dchat_desktop.Voice.Calls.{
  start_call, sidecar_initialized, sidecar_listening, pub_addrs_known, sidecar_dial_ready,
  send_invite, start_failed, accept_call, send_accept, dial_attempt, dial_succeeded, dial_failed,
  decline_call, end_call, toggle_video, send_audio_frame, send_video_frame,
}
use dchat_desktop.Voice.Signals.{handle_signal}
use dchat_desktop.Voice.Sidecar.{SidecarEvent, handle_sidecar_event, stopped, sidecar_exited}

pub data Event : Type 0 where
  starts : (target id : String) → CallType → Event
  initialized listening dial_ready failed_to_start has_stopped exited ends : Event
  has_addrs : (addrs : String) → Event
  invites : (target id : String) → CallType → Event
  accepts declines : (id : String) → Event
  accept_sent : (id remote : String) → Option String → Event
  dials : (id target : String) → Event
  dialled : (id session : String) (now : ℕ) → Event
  dial_fails : (id : String) (attempt : ℕ) → Event
  goes_online : (online : Bool) → Event
  toggles : (enabled : Bool) → Event
  sends_audio sends_video : (frame : String) → Event
  signalled : (src : String) → Signal → (now : ℕ) → Event
  reported : SidecarEvent → (now : ℕ) → Event

unfoldable pub step : Event → Service → Service
step (starts target id t) s = (start_call target id t s).1
step initialized s = sidecar_initialized s
step listening s = sidecar_listening s
step dial_ready s = sidecar_dial_ready s
step failed_to_start s = start_failed s
step has_stopped s = stopped s
step exited s = sidecar_exited s
step ends s = (end_call s).1
step (has_addrs addrs) s = pub_addrs_known addrs s
step (invites target id t) s = send_invite target id t s
step (accepts id) s = (accept_call id s).1
step (declines id) s = decline_call id s
step (accept_sent id remote addrs) s = send_accept id remote addrs s
step (dials id target) s = dial_attempt id target s
step (dialled id session now) s = dial_succeeded id session now s
step (dial_fails id attempt) s = dial_failed id attempt s
step (goes_online online) s = record s { online = online }
step (toggles enabled) s = toggle_video enabled s
step (sends_audio frame) s = send_audio_frame frame s
step (sends_video frame) s = send_video_frame frame s
step (signalled src signal now) s = handle_signal src signal now s
step (reported event now) s = handle_sidecar_event event now s

unfoldable pub run : List Event → Service → Service
run [] s = s
run (e ∷ es) s = run es (step e s)
