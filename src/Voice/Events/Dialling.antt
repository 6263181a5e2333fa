-- ===== src/Voice/Events/Dialling.antt =====
-- The loop of `dialTuna`.
use dchat_desktop.Common.{
  ℕ, zero, suc, ◌+◌, ◌≤◌, ◌<◌, String, true, Option, none, some, List, [], ◌∷◌, ◌++◌, ◌≡◌, ◌∙◌, ap,
  beq_self, string_eq, arith,
}
use mathlib.Core.List.{append_assoc}
use dchat_desktop.Voice.State.{end_call_internal, Service, Call, Command, dial, shutdown}
use dchat_desktop.Voice.Calls.{dial_attempt, dial_rounds, dial_tuna, tuna_address}

-- What else happens meanwhile leaves the call and the sidecar alone.
pub record IsCalm (f : Service → Service) : Type 0 where
  pub active : (s : Service) → (f s).active ≡ s.active
  pub sidecar : (s : Service) → (f s).sidecar ≡ s.sidecar
  pub commands : (s : Service) → (f s).commands ≡ s.commands

-- A command so many times, then the shutdown.
abbrev times : ℕ → Command → List Command
times zero x = shutdown ∷ []
times (suc n) x = x ∷ times n x

module _ (target : String) (c : Call) (answer : ℕ → Option (String × ℕ))
    (meanwhile : ℕ → Service → Service) (calm : (k : ℕ) → IsCalm (meanwhile k)) where
  dialled :
      (s : Service)
      → s.active ≡ some c
      → s.sidecar ≡ true
      → ((dial_attempt c.call_id target s).active ≡ some c)
        × ((dial_attempt c.call_id target s).sidecar ≡ true)
        × ((dial_attempt c.call_id target s).commands
            ≡ s.commands ++ dial (tuna_address target) ∷ [])
  unfolding dial_attempt
  dialled s a h =
      rw (a, beq_self c.call_id, h)
        (ground (arith, a, h), ground (arith, a, h), ground (arith, a, h))

  rounds-failing :
      (k left : ℕ) (s : Service)
      → s.active ≡ some c
      → s.sidecar ≡ true
      → ((i : ℕ) → k ≤ i → i < k + left → answer i ≡ none)
      → ((dial_rounds c.call_id target answer meanwhile k left s).active ≡ none)
        × ((dial_rounds c.call_id target answer meanwhile k left s).commands
            ≡ s.commands ++ times left (dial (tuna_address target)))
  unfolding dial_rounds end_call_internal
  rounds-failing k zero s a h fails =
      rw (a, beq_self c.call_id) (ground (arith, a, h), ground (arith, a, h))
  rounds-failing k (suc left) s a h fails =
      let asked = dial_attempt c.call_id target s in
      let (active, sidecar, commands) = dialled s a h in
      let m = calm k in
      let rest =
        rounds-failing (k + 1) left (meanwhile k asked) (m.active asked ∙ active)
          (m.sidecar asked ∙ sidecar) (λ i l g. fails i (omega arith) (omega arith)) in
      rw (a, beq_self c.call_id, fails k (omega arith) (omega arith))
        (
          rest.0,
          rest.1
              ∙ ap (λ xs. xs ++ times left (dial (tuna_address target)))
                  (m.commands asked ∙ commands)
              ∙ append_assoc s.commands (dial (tuna_address target) ∷ []) _,
        )

  -- When every dial fails and nothing else touches the call or the sidecar meanwhile, the loop ends: the
  -- sidecar has been asked three times to dial the other side's TUNA address and then to shut down, and
  -- the call is over.
  pub dial_tuna-failing :
      (s : Service)
      → s.active ≡ some c
      → s.sidecar ≡ true
      → ((i : ℕ) → 1 ≤ i → i ≤ 3 → answer i ≡ none)
      → ((dial_tuna c.call_id target answer meanwhile s).active ≡ none)
        × ((dial_tuna c.call_id target answer meanwhile s).commands
            ≡ s.commands
              ++ dial (tuna_address target)
                ∷ dial (tuna_address target)
                ∷ dial (tuna_address target)
                ∷ shutdown
                ∷ [])
  unfolding dial_tuna
  dial_tuna-failing s a h fails = rounds-failing 1 3 s a h (λ i l g. fails i l (omega arith))
