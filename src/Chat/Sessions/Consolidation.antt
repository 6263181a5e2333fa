-- ===== src/Chat/Sessions/Consolidation.antt =====
-- chat-service.ts: `consolidateLegacySessions`, which runs when the service is made.
use dchat_desktop.Common.{
  ℕ, String, Bool, true, false, not, List, [], ◌∷◌, ◌++◌, ◌==◌, string_eq, leb, select,
  if◌then◌else◌,
}
use dchat_desktop.Types.{Session, SessionType, direct, topic, private_group}
use dchat_desktop.Store.Messages
use dchat_desktop.Store.Sessions
use dchat_desktop.Store.Intact.Rules.{Intact, intact_rules}
use dchat_desktop.Chat.Sessions.{direct_id}
use dchat_desktop.Exec.{
  Exec, ◌>>=◌, ◌>>◌, gets, modify, attempt, when, for_each, swallow, Keeps, keeps_rules,
}

abbrev is_direct : Session → Bool
is_direct s = is_direct_type s.kind
  where
    is_direct_type : SessionType → Bool
    is_direct_type direct = true
    is_direct_type topic = false
    is_direct_type private_group = false

-- The entries of the map `byTarget`, in the order in which they came; an entry has its first session,
-- and the others.
abbrev Entry : Type 0
Entry = String × Session × List Session

add_to : Session → List Entry → List Entry
add_to s [] = (s.target_address, s, []) ∷ []
add_to s ((target, first, others) ∷ es) =
    if target == s.target_address
    then (target, first, others ++ s ∷ []) ∷ es
    else (target, first, others) ∷ add_to s es

by_target : List Session → List Entry → List Entry
unfolding add_to
by_target [] es = es
by_target (s ∷ ss) es = by_target ss (add_to s es)

-- `reduce((a, b) => a.lastMessageAt >= b.lastMessageAt ? a : b)`
abbrev best : Session → List Session → Session
best a [] = a
best a (b ∷ bs) = best (if leb b.last_message_at a.last_message_at then a else b) bs

abbrev has_canonical : String → List Session → Bool
has_canonical id [] = false
has_canonical id (s ∷ ss) = if s.id == id then true else has_canonical id ss

move : String → ℕ → Session → Exec (Unit {0})
unfolding ◌>>=◌
move id now s = do
  attempt (Messages.update_session_id s.id id now)
  modify (Sessions.delete_by_id s.id)

-- A target whose only session has the right id has no legacy session, and nothing happens.
consolidate : ℕ → Entry → Exec (Unit {0})
unfolding ◌>>=◌ when for_each move
consolidate now (target, first, others) =
    let id = direct_id target in
    do
      when (not (has_canonical id (first ∷ others)))
          (modify (Sessions.upsert (record (best first others) { id = id })))
      for_each (select (λ s. not (s.id == id)) (first ∷ others)) (move id now)

unfoldable consolidate_legacy_sessions : ℕ → Exec (Unit {0})
unfolding ◌>>=◌ for_each swallow consolidate by_target
consolidate_legacy_sessions now = swallow do
  all ← gets Sessions.find_all
  for_each (by_target (select is_direct all) []) (consolidate now)

move-Intact : (id : String) (now : ℕ) (s : Session) → Keeps Intact (move id now s)
unfolding move
move-Intact id now s = search (keeps_rules, intact_rules) depth 10

consolidate-Intact : (now : ℕ) (e : Entry) → Keeps Intact (consolidate now e)
unfolding consolidate
consolidate-Intact now (target, first, others) =
    search (keeps_rules, intact_rules, move-Intact) depth 15

-- The consolidation keeps the database intact, also where it stops half way.
consolidate_legacy_sessions-Intact : (now : ℕ) → Keeps Intact (consolidate_legacy_sessions now)
unfolding consolidate_legacy_sessions
consolidate_legacy_sessions-Intact now =
    search (keeps_rules, intact_rules, consolidate-Intact) depth 15
