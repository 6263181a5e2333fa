-- ===== src/Voice/Events/Handshake.antt =====
-- The two sides of a call together.
use dchat_desktop.Common.{ℕ, String, Option, some, string_eq, [], ◌∷◌}
use dchat_desktop.Voice.State.{Service, CallType, invite, accept}
use dchat_desktop.Voice.Sidecar.{incoming_session}
use dchat_desktop.Voice.Events.{
  run, starts, initialized, listening, has_addrs, invites, signalled, reported, accepts, dial_ready,
  accept_sent, dials,
}

-- The caller's side: the call, the start of the sidecar up to its addresses, and the invite; and after
-- it the answer and the session.
abbrev pub calling : (callee id : String) → CallType → (addrs : String) → Service → Service
calling callee id t addrs s =
    run (starts callee id t ∷ initialized ∷ listening ∷ has_addrs addrs ∷ invites callee id t ∷ [])
      s

abbrev pub answered : String → String → String → ℕ → ℕ → Service → Service
answered callee id session now later s =
    run (signalled callee (accept id) now ∷ reported (incoming_session session) later ∷ []) s

-- The callee's side: the invite, the answer of the user, the start of the sidecar for a dial, the accept
-- signal, and the dial to the caller.
abbrev pub answering : String → String → CallType → Option String → ℕ → Service → Service
answering caller id t addrs now r =
    run
      (signalled caller (invite id addrs (some t)) now
        ∷ accepts id
        ∷ dial_ready
        ∷ accept_sent id caller addrs
        ∷ dials id caller
        ∷ [])
      r
