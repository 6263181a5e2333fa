-- ===== src/Voice/Events/Races.antt =====
-- Signals and sessions that cross: two orders of the same events, signals of another call, and a caller
-- who hangs up before the answer.
use dchat_desktop.Common.{ℕ, String, Bool, true, false, Option, none, some, ◌≡◌, arith, string_eq}
use text.Mathlib.TextEquality.{eq_iff}
use dchat_desktop.Voice.State.{
  Service, Call, CallType, Signal, IncomingCall, ringing, connecting, connected, invite, accept,
  decline, end, video_toggle, is_call, or_voice, is_video,
}
use dchat_desktop.Voice.Calls.{accept_call}
use dchat_desktop.Voice.Signals.{handle_signal}
use dchat_desktop.Voice.Sidecar.{incoming_session, handle_sidecar_event}

-- The accept signal of the callee and the session that the callee dials may arrive in either order:
-- the ringing call is the same connected call after both, started at the later of the two events.
pub accept_session_comm :
    (src id session : String) (now later : ℕ) (c : Call) (s : Service)
    → s.active ≡ some c
    → c.call_id ≡ id
    → c.state ≡ ringing
    → c.tuna_session ≡ none
    → ((handle_sidecar_event
          (incoming_session session)
          later
          (handle_signal src (accept id) now s)).active
        ≡ some
            (record c { tuna_session = some session; state = connected; started_at = some later }))
      × ((handle_signal src
            (accept id)
            later
            (handle_sidecar_event (incoming_session session) now s)).active
          ≡ some (record c {
            tuna_session = some session;
            state = connected;
            started_at = some later;
          }))
unfolding handle_signal handle_sidecar_event
accept_session_comm src id session now later c s a i r n =
    (ground (arith, eq_iff c.call_id id), ground (arith, eq_iff c.call_id id))

abbrev pub signal_id : Signal → String
signal_id (invite id addrs t) = id
signal_id (accept id) = id
signal_id (decline id) = id
signal_id (end id) = id
signal_id (video_toggle id t enabled) = id

abbrev pub is_invite : Signal → Bool
is_invite (invite id addrs t) = true
is_invite _ = false

-- A signal that is not an invite and does not carry the id of the active call changes nothing, whoever
-- sends it: a late accept, decline, end or video toggle of an earlier call cannot touch the present one.
pub handle_signal_stale :
    (src : String) (x : Signal) (now : ℕ) (s : Service)
    → is_invite x ≡ false
    → is_call (signal_id x) s.active ≡ false
    → handle_signal src x now s ≡ s
unfolding handle_signal
handle_signal_stale src (invite id addrs t) now s i h = cc
handle_signal_stale src (accept id) now s i h = ground arith
handle_signal_stale src (decline id) now s i h = ground arith
handle_signal_stale src (end id) now s i h = ground arith
handle_signal_stale src (video_toggle id t enabled) now s i h = ground arith

-- A caller who hangs up before the answer is not noticed by a callee without a call: the end signal leaves the incoming call in
-- place, and the user can still accept it, which makes it the active call.
pub accept_call_after_end :
    (src id : String) (addrs : Option String) (t : Option CallType) (now later : ℕ) (s : Service)
    → s.active ≡ none
    → let r =
        accept_call id
          (handle_signal src (end id) later (handle_signal src (invite id addrs t) now s)) in
      (r.0 ≡ none)
      × (r.1.active
          ≡ some (record {
            call_id = id;
            remote_address = src;
            state = connecting;
            tuna_session = none;
            started_at = none;
            call_type = or_voice t;
            is_video_enabled = is_video (or_voice t);
          }))
unfolding handle_signal accept_call
accept_call_after_end src id addrs t now later s a =
    (ground (arith, eq_iff id id), ground (arith, eq_iff id id))

-- Accepting an incoming call during an active one puts it in the place of the active call without an
-- end signal to the other side and without a command to the sidecar to hang up.
pub accept_call_replaces :
    (c : Call) (x : IncomingCall) (s : Service)
    → s.active ≡ some c
    → s.incoming ≡ some x
    → s.sidecar_ready ≡ true
    → let r = accept_call x.call_id s in
      (is_call x.call_id r.1.active ≡ true)
      × (r.1.signals ≡ s.signals)
      × (r.1.commands ≡ s.commands)
unfolding accept_call
accept_call_replaces c x s a i r = (
  ground (arith, eq_iff x.call_id x.call_id),
  ground (arith, eq_iff x.call_id x.call_id),
  ground (arith, eq_iff x.call_id x.call_id),
)
