-- ===== src/Voice/Calls.antt =====
-- The operations of the user: start, accept, decline and end a call, and send its media.
use dchat_desktop.Common.{
  ℕ, zero, suc, ◌+◌, String, Bool, true, false, Option, none, some, ◌==◌, string_eq, ltb,
  if◌then◌else◌,
}
use dchat_desktop.Common.Text.{◌++◌}
use dchat_desktop.Voice.State.{
  Call, CallType, video, is_video, IncomingCall, Service, ringing, connecting, connected, CallState,
  invite, accept, decline, end, video_toggle, init, listen, get_pub_addrs, set_pub_addrs, dial,
  hangup, send_audio, send_video, on_incoming_call, send_signal, send_then, send_command, push,
  is_call, end_call_internal, set_active,
}

-- The message of an exception that an operation throws.
pub data Error : Type 0 where
  call_active no_matching_call not_connected : Error

abbrev new_call : String → String → CallState → CallType → Call
new_call id remote state t = record {
  call_id = id;
  remote_address = remote;
  state = state;
  tuna_session = none;
  started_at = none;
  call_type = t;
  is_video_enabled = is_video t;
}

-- `spawnSidecar` and the first command, unless a sidecar is there.
abbrev pub spawn_sidecar : Service → Service
spawn_sidecar s = if s.sidecar then s else send_command init (record s { sidecar = true })

-- `startCall`, up to the start of the sidecar; where that is ready the invite follows at once, by
-- `send_invite`.
unfoldable pub start_call : String → String → CallType → Service → Option Error × Service
start_call target id t s = elim s.active [
  | some _ ↦ (some call_active, s)
  | none ↦
      let s' = set_active (new_call id target ringing t) s in
      (none, if s.sidecar_ready then s' else spawn_sidecar s')
]

-- `start`, after the sidecar answered `init`, after it answered `listen`, and after it gave the
-- addresses to `getPubAddrs`, which is asked up to fifteen times.
unfoldable pub sidecar_initialized : Service → Service
sidecar_initialized s = send_command listen s

unfoldable pub sidecar_listening : Service → Service
sidecar_listening s = send_command get_pub_addrs (record s { sidecar_ready = true })

unfoldable pub pub_addrs_known : String → Service → Service
pub_addrs_known addrs s = record s { cached_pub_addrs = some addrs }

-- `startForDial`, after the sidecar answered `init`.
unfoldable pub sidecar_dial_ready : Service → Service
sidecar_dial_ready s = record s { sidecar_ready = true }

-- `startCall`, after the start of the sidecar.
unfoldable pub send_invite : String → String → CallType → Service → Service
send_invite target id t s =
    if is_call id s.active
    then send_then target (invite id s.cached_pub_addrs (some t)) (λ r. r) s
    else s

-- `startCall`, after a start of the sidecar that threw.
unfoldable pub start_failed : Service → Service
start_failed s = end_call_internal s

abbrev is_incoming : String → Option IncomingCall → Bool
is_incoming id (some c) = c.call_id == id
is_incoming id none = false

-- `acceptCall`, up to the start of the sidecar.
unfoldable pub accept_call : String → Service → Option Error × Service
accept_call id s = elim s.incoming [
  | none ↦ (some no_matching_call, s)
  | some c ↦
      if c.call_id == id
      then (let s' =
            set_active (new_call id c.remote_address connecting c.call_type)
              (record s { incoming = none }) in
          (none, if s.sidecar_ready then s' else spawn_sidecar s'))
      else (some no_matching_call, s)
]

-- The TUNA address of a client.
abbrev pub tuna_address : String → String
tuna_address address = "dchat-tuna." ++ address

-- The last part of `acceptCall`.
abbrev give_addrs : String → Option String → Service → Service
give_addrs remote (some a) s = send_command (set_pub_addrs (tuna_address remote) a) s
give_addrs remote none s = end_call_internal s

-- `acceptCall`, after the start of the sidecar: the accept signal, and the caller's addresses. Without
-- addresses the call ends.
unfoldable pub send_accept : String → String → Option String → Service → Service
send_accept id remote addrs s = send_then remote (accept id) (give_addrs remote addrs) s

-- One round of the loop in `dialTuna`.
unfoldable pub dial_attempt : String → String → Service → Service
dial_attempt id target s =
    if is_call id s.active then send_command (dial (tuna_address target)) s else s

abbrev link : String → ℕ → Call → Call
link session now c = record c {
  tuna_session = some session;
  state = connected;
  started_at = some now;
}

-- The sidecar answered the dial with a session.
unfoldable pub dial_succeeded : String → String → ℕ → Service → Service
dial_succeeded id session now s = elim s.active [
  | some c ↦ if c.call_id == id then set_active (link session now c) s else s
  | none ↦ s
]

-- A failed attempt is repeated, but for the third, which ends the call.
abbrev pub max_retries : ℕ
max_retries = 3

unfoldable pub dial_failed : String → ℕ → Service → Service
dial_failed id attempt s =
    if ltb attempt max_retries then s else if is_call id s.active then end_call_internal s else s

-- The loop of `dialTuna` from attempt `k` on, with `left` attempts: `answer k` is the session that the
-- sidecar answers to the k-th dial and the time, none where it throws; `meanwhile k` is what else
-- happens during the dial and the wait of three seconds after a failure.
unfoldable pub dial_rounds :
    (id target : String)
    → (answer : ℕ → Option (String × ℕ)) → (meanwhile : ℕ → Service → Service) → (k left : ℕ)
    → Service
    → Service
unfolding end_call_internal dial_succeeded dial_attempt
dial_rounds id target answer meanwhile k zero s =
    if is_call id s.active then end_call_internal s else s
dial_rounds id target answer meanwhile k (suc left) s =
    let s' = meanwhile k (dial_attempt id target s) in
    let rest = dial_rounds id target answer meanwhile (k + 1) left s' in
    if is_call id s.active
    then elim (answer k) [ some (session, now) ↦ dial_succeeded id session now s' | none ↦ rest ]
    else s

-- `dialTuna`
unfoldable pub dial_tuna :
    (id target : String)
    → (answer : ℕ → Option (String × ℕ)) → (meanwhile : ℕ → Service → Service) → Service
    → Service
unfolding dial_rounds
dial_tuna id target answer meanwhile s = dial_rounds id target answer meanwhile 1 max_retries s

-- `declineCall`
unfoldable pub decline_call : String → Service → Service
decline_call id s = elim s.incoming [
  | none ↦ s
  | some c ↦
      if c.call_id == id
      then send_then c.remote_address (decline id) (push (on_incoming_call none))
          (record s { incoming = none })
      else s
]

abbrev pub hang_up : Option String → Service → Service
hang_up none s = s
hang_up (some session) s = send_command (hangup session) s

-- `endCall`: without a connection `sendMessageNoReply` throws.
unfoldable pub end_call : Service → Option Error × Service
unfolding end_call_internal
end_call s = elim s.active [
  | none ↦ (none, s)
  | some c ↦
      if s.online
      then (
        none,
        end_call_internal (hang_up c.tuna_session (send_signal c.remote_address (end c.call_id) s)),
      )
      else (some not_connected, s)
]

abbrev switched : Bool → Call → Call
switched enabled c = record c {
  is_video_enabled = enabled;
  call_type = if enabled then video else c.call_type;
}

-- `toggleVideo`
unfoldable pub toggle_video : Bool → Service → Service
toggle_video enabled s = elim s.active [
  | none ↦ s
  | some c ↦
      let c' = switched enabled c in
      send_then c.remote_address (video_toggle c.call_id (some c'.call_type) enabled) (λ r. r)
        (set_active c' s)
]

abbrev is_connected : CallState → Bool
is_connected connected = true
is_connected _ = false

-- The session of a call that media may go to.
abbrev pub media_session : Option Call → Option String
media_session none = none
media_session (some c) = if is_connected c.state then c.tuna_session else none

-- `sendAudio`
unfoldable pub send_audio_frame : String → Service → Service
send_audio_frame frame s = elim (media_session s.active) [
  | none ↦ s
  | some session ↦
      send_command (send_audio session frame)
        (record s { audio_send_count = s.audio_send_count + 1 })
]

abbrev video_on : Option Call → Bool
video_on none = false
video_on (some c) = c.is_video_enabled

-- `sendVideo`
unfoldable pub send_video_frame : String → Service → Service
send_video_frame frame s = elim (media_session s.active) [
  | none ↦ s
  | some session ↦ if video_on s.active then send_command (send_video session frame) s else s
]
