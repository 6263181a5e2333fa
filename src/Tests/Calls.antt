-- ===== src/Tests/Calls.antt =====
-- The theorems on calls at concrete inputs.
use dchat_desktop.Common.{ℕ, String, none, some, List, [], ◌∷◌, ◌≡◌, refl, true, false}
use dchat_desktop.Voice.State.{
  Service, Call, CallState, IncomingCall, new, voice, video, ringing, connecting, connected, invite,
  accept, end, dial, shutdown,
}
use dchat_desktop.Voice.Calls.{accept_call, dial_tuna, tuna_address}
use dchat_desktop.Voice.Signals.{handle_signal}
use dchat_desktop.Voice.Sidecar.{incoming_session, handle_sidecar_event}
use dchat_desktop.Voice.Events.{
  Event, run, starts, listening, has_addrs, invites, signalled, reported, goes_online, toggles,
}
use dchat_desktop.Voice.Events.Safety.{IsSound, run-IsSound, new-IsSound}
use dchat_desktop.Voice.Events.Races.{
  accept_session_comm, handle_signal_stale, accept_call_after_end,
}
use dchat_desktop.Voice.Events.Dialling.{dial_tuna-failing}

abbrev call : String → CallState → Call
call id state = record {
  call_id = id;
  remote_address = "bob";
  state = state;
  tuna_session = none;
  started_at = none;
  call_type = voice;
  is_video_enabled = false;
}

abbrev idle : Service
idle = record {
  active = none;
  incoming = none;
  pending_tuna_session = none;
  sidecar = true;
  sidecar_ready = true;
  cached_pub_addrs = some "addrs";
  audio_send_count = 0;
  online = true;
  signals = [];
  commands = [];
  pushed = [];
}

abbrev busy : Service
busy = record idle { active = some (call "c1" ringing) }

abbrev invited : IncomingCall
invited = record {
  call_id = "c2";
  remote_address = "carol";
  pub_addrs = some "a";
  call_type = voice;
}

abbrev a_call : List Event
a_call =
    goes_online true
    ∷ starts "bob" "c1" video
    ∷ listening
    ∷ has_addrs "addrs"
    ∷ invites "bob" "c1" video
    ∷ reported (incoming_session "s1") 10
    ∷ signalled "bob" (accept "c1") 20
    ∷ toggles false
    ∷ signalled "bob" (end "c1") 30
    ∷ []

run-IsSound_example : IsSound (run a_call new).active
run-IsSound_example = run-IsSound a_call new new-IsSound

accept_session_comm_example :
    ((handle_sidecar_event
        (incoming_session "s1")
        20
        (handle_signal "bob" (accept "c1") 10 busy)).active
      ≡ some (record (call "c1" connected) { tuna_session = some "s1"; started_at = some 20 }))
    × ((handle_signal "bob"
          (accept "c1")
          20
          (handle_sidecar_event (incoming_session "s1") 10 busy)).active
        ≡ some (record (call "c1" connected) { tuna_session = some "s1"; started_at = some 20 }))
accept_session_comm_example =
    accept_session_comm "bob" "c1" "s1" 10 20 (call "c1" ringing) busy refl refl refl refl

handle_signal_stale_example : handle_signal "eve" (end "c0") 10 busy ≡ busy
handle_signal_stale_example = handle_signal_stale "eve" (end "c0") 10 busy refl refl

accept_call_after_end_example :
    let r =
      accept_call "c1"
        (handle_signal "bob" (end "c1") 20 (handle_signal "bob" (invite "c1" none none) 10 idle)) in
    (r.0 ≡ none) × (r.1.active ≡ some (call "c1" connecting))
accept_call_after_end_example = accept_call_after_end "bob" "c1" none none 10 20 idle refl

abbrev at_rest : Service
at_rest = record idle { sidecar = false; sidecar_ready = false; cached_pub_addrs = none }

abbrev in_talk : Call
in_talk = record (call "c1" connected) { tuna_session = some "s1" }

abbrev talking : Service
talking = record idle { active = some in_talk; online = false }

abbrev quiet : ℕ → Service → Service
quiet k s = s

dial_tuna-failing_example :
    ((dial_tuna "c1" "bob" (λ k. none) quiet busy).active ≡ none)
    × ((dial_tuna "c1" "bob" (λ k. none) quiet busy).commands
        ≡ dial (tuna_address "bob")
          ∷ dial (tuna_address "bob")
          ∷ dial (tuna_address "bob")
          ∷ shutdown
          ∷ [])
dial_tuna-failing_example =
    dial_tuna-failing "bob" (call "c1" ringing) (λ k. none) quiet
      (λ k. record { active = λ s. refl; sidecar = λ s. refl; commands = λ s. refl }) busy refl refl
      (λ i l g. refl)
