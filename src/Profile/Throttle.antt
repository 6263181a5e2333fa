-- ===== src/Profile/Throttle.antt =====
-- How often a client answers a sender that asks for its profile.
use dchat_desktop.Common.{
  ℕ, ◌+◌, ◌≤◌, ◌<◌, String, true, Option, none, some, List, [], ◌∷◌, ◌++◌, All, length,
  length-append, ◌≡◌, refl, arith, beq_self, string_eq, Bool-cases, ◌⊎◌, inl, inr, Option-cases,
}
use dchat_desktop.Store.Contacts
use dchat_desktop.Types.{Contact}
use dchat_desktop.Profile.{
  Own, Responses, handle_profile_request, is_throttled, answer, set_response, response, respond,
}
use dchat_desktop.Types.Wire.{profile}
use dchat_desktop.Exec.{Exec, World, ok, ◌>>=◌, pure, swallow, send_no_reply}

-- A request of the sender: what it asks for, the id of the answer, and its time.
pub record Request : Type 0 where
  pub request_type : String
  pub id : String
  pub at : ℕ

-- The same sender asks again and again.
unfoldable pub answer_all : Own → (sender : String) → List Request → Responses → Exec Responses
unfolding ◌>>=◌
answer_all own sender [] last = pure last
answer_all own sender (q ∷ requests) last =
    handle_profile_request own last sender q.request_type q.id q.at >>= λ after.
    answer_all own sender requests after

module _ (own : Own) (sender request_type id : String) where
  abbrev Answered : Exec Responses → Responses → ℕ → World → Type 0
  Answered m last now w =
      (after : World) × (m w ≡ (ok (set_response sender now last), after))
      × (length after.sent ≤ length w.sent + 1)

  respond-Answered :
      (last : Responses) (now : ℕ) (w : World)
      → Answered (respond own last sender request_type id now) last now w
  unfolding pure send_no_reply swallow ◌>>=◌
  respond-Answered last now w = elim (Option-cases w.account) [
    | inl h ↦ (w, rw h refl, omega arith)
    | inr (a, h) ↦ (
      record w {
        sent =
            w.sent
            ++ record { dests = sender ∷ []; packet = profile id (response own request_type) now }
              ∷ [];
      },
      rw h refl,
      omega (
        arith,
        length-append w.sent (
            record { dests = sender ∷ []; packet = profile id (response own request_type) now }
            ∷ []),
      ),
    )
  ]

  answer-throttled :
      (contact : Option Contact) (last : Responses) (now : ℕ) (w : World)
      → is_throttled (last sender) now ≡ true
      → answer contact own last sender request_type id now w ≡ (ok last, w)
  unfolding answer pure
  answer-throttled none last now w h = refl
  answer-throttled (some c) last now w h = rw h refl

  -- A request within the throttle changes nothing.
  throttled :
      (last : Responses) (now : ℕ) (w : World)
      → is_throttled (last sender) now ≡ true
      → handle_profile_request own last sender request_type id now w ≡ (ok last, w)
  unfolding handle_profile_request
  throttled last now w h = answer-throttled (Contacts.find_by_address sender w.db) last now w h

  answer-cases :
      (contact : Option Contact) (last : Responses) (now : ℕ) (w : World)
      → (answer contact own last sender request_type id now w ≡ (ok last, w))
        ⊎ Answered (answer contact own last sender request_type id now) last now w
  unfolding answer pure
  answer-cases none last now w = inl refl
  answer-cases (some c) last now w = elim (Bool-cases (is_throttled (last sender) now)) [
    | inl h ↦ inl (rw h refl)
    | inr h ↦ inr (rw h (respond-Answered last now w))
  ]

module _ (own : Own) (sender : String) where
  -- All the requests fall into one span of thirty seconds.
  abbrev pub Within : ℕ → List Request → Type 0
  Within from requests = All (λ (q : Request). (from ≤ q.at) × (q.at < from + 30000)) requests

  answer_all-throttled :
      (from : ℕ) (last : Responses) (requests : List Request) (w : World)
      → from ≤ last sender
      → Within from requests
      → answer_all own sender requests last w ≡ (ok last, w)
  unfolding answer_all pure is_throttled
  answer_all-throttled from last [] w h v = refl
  answer_all-throttled from last (q ∷ qs) w h v =
      rw (throttled own sender q.request_type q.id last q.at w (ground (arith, h, v.0.0, v.0.1)))
        (answer_all-throttled from last qs w h v.1)

  -- However often a sender asks within thirty seconds, whatever it asks for each time, and in whatever
  -- order the clock gives the times, the client sends at most one response.
  pub answer_all-once :
      (from : ℕ) (last : Responses) (requests : List Request) (w : World)
      → Within from requests
      → length (answer_all own sender requests last w).1.sent ≤ length w.sent + 1
  unfolding answer_all pure handle_profile_request
  answer_all-once from last [] w v = omega arith
  answer_all-once from last (q ∷ qs) w v =
      elim (answer-cases own sender q.request_type q.id (Contacts.find_by_address sender w.db) last
        q.at w) [
          | inl h ↦ rw h (answer_all-once from last qs w v.1)
          | inr (after, h, one) ↦
              rw
                (
                  h,
                  answer_all-throttled from (set_response sender q.at last) qs after
                      (ground (arith, beq_self sender, v.0.0)) v.1,
                )
                one
        ]
