-- ===== src/Voice.antt =====
-- src/main/services/voice-call-service.ts: the state machine of a voice or video call. Each function
-- is one run of the event loop: an entry point, or what follows an `await`, with the variables that
-- the code has captured as arguments. The sidecar process, the NKN network and the clock are the
-- environment; the session ids of the sidecar are strings that are not empty.
pub mod State
pub mod Calls
pub mod Signals
pub mod Sidecar
pub mod Events
