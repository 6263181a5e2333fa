-- ===== src/Voice/State.antt =====
-- voice.ts, and the fields of `VoiceCallService`.
use dchat_desktop.Common.{
  ℕ, String, Bool, true, false, Option, none, some, List, [], ◌∷◌, ◌++◌, ◌==◌, string_eq,
  if◌then◌else◌,
}

pub data CallState : Type 0 where
  ringing connecting connected ended : CallState

pub data CallType : Type 0 where
  voice video : CallType

abbrev pub is_video : CallType → Bool
is_video video = true
is_video voice = false

pub record Call : Type 0 where
  pub call_id : String
  pub remote_address : String
  pub state : CallState
  pub tuna_session : Option String
  pub started_at : Option ℕ
  pub call_type : CallType
  pub is_video_enabled : Bool

pub record IncomingCall : Type 0 where
  pub call_id : String
  pub remote_address : String
  pub pub_addrs : Option String
  pub call_type : CallType

-- The signals that go through the NKN client, after their parse.
pub data Signal : Type 0 where
  invite : (call_id : String) (pub_addrs : Option String) (call_type : Option CallType) → Signal
  accept decline end : (call_id : String) → Signal
  video_toggle : (call_id : String) (call_type : Option CallType) (enabled : Bool) → Signal

-- The commands that go to the sidecar.
pub data Command : Type 0 where
  init listen shutdown get_pub_addrs : Command
  set_pub_addrs : (remote addrs : String) → Command
  dial : (remote : String) → Command
  hangup reject : (session : String) → Command
  send_audio send_video : (session frame : String) → Command

pub data Push : Type 0 where
  on_call_state : Option Call → Push
  on_incoming_call : Option IncomingCall → Push
  on_audio on_video : (call_id : Option String) (frame : String) → Push

-- `online` is the state of the NKN client: connected or not.
pub record Service : Type 0 where
  pub active : Option Call
  pub incoming : Option IncomingCall
  pub pending_tuna_session : Option String
  pub sidecar : Bool
  pub sidecar_ready : Bool
  pub cached_pub_addrs : Option String
  pub audio_send_count : ℕ
  pub online : Bool
  pub signals : List (String × Signal)
  pub commands : List Command
  pub pushed : List Push

unfoldable pub new : Service
new = record {
  active = none;
  incoming = none;
  pending_tuna_session = none;
  sidecar = false;
  sidecar_ready = false;
  cached_pub_addrs = none;
  audio_send_count = 0;
  online = false;
  signals = [];
  commands = [];
  pushed = [];
}

-- `sendMessageNoReply` with a signal, once the client is connected.
abbrev pub send_signal : String → Signal → Service → Service
send_signal dest signal s = record s { signals = s.signals ++ (dest, signal) ∷ [] }

-- `sendMessageNoReply`, and what the operation does after it: without a connection it throws, and the
-- rest is not done.
abbrev pub send_then : String → Signal → (Service → Service) → Service → Service
send_then dest signal rest s = if s.online then rest (send_signal dest signal s) else s

-- A line on the sidecar's standard input, if the sidecar runs.
abbrev pub send_command : Command → Service → Service
send_command c s = record s { commands = if s.sidecar then s.commands ++ c ∷ [] else s.commands }

abbrev pub push : Push → Service → Service
push p s = record s { pushed = s.pushed ++ p ∷ [] }

-- The update for the renderer, which leaves out the session.
abbrev pub update_of : Call → Call
update_of c = record c { tuna_session = none }

abbrev pub push_call_state : Service → Service
push_call_state s = elim s.active [
  | none ↦ push (on_call_state none) s
  | some c ↦ push (on_call_state (some (update_of c))) s
]

-- `this.activeCall && this.activeCall.callId === id`
abbrev pub is_call : String → Option Call → Bool
is_call id (some c) = c.call_id == id
is_call id none = false

-- `callType ?? "voice"`
abbrev pub or_voice : Option CallType → CallType
or_voice (some t) = t
or_voice none = voice

-- `stop`, up to its first `await`: what follows is the event `stopped`.
abbrev pub stop : Service → Service
stop s = send_command shutdown s

-- `endCallInternal`
unfoldable pub end_call_internal : Service → Service
end_call_internal s = elim s.active [
  | none ↦ stop (record s { audio_send_count = 0; cached_pub_addrs = none })
  | some c ↦ stop (record s {
    active = none;
    audio_send_count = 0;
    cached_pub_addrs = none;
    pushed = s.pushed ++ on_call_state (some (update_of (record c { state = ended }))) ∷ [];
  })
]

-- `this.activeCall = call; this.pushCallState();`
abbrev pub set_active : Call → Service → Service
set_active c s = push_call_state (record s { active = some c })
