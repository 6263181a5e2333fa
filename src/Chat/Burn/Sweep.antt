-- ===== src/Chat/Burn/Sweep.antt =====
-- What one round of the burn scheduler does to the messages.
use mathlib.Core.Option
use dchat_desktop.Common.{
  leb, not, ◌&&◌, ℕ, String, Bool, true, false, Option, none, some, List, [], ◌∷◌, ◌≡◌, refl, sym,
  ap, ◌∙◌, if◌then◌else◌, string_eq, select, arith, Option-cases, inl, inr,
}
use text.Mathlib.Text.{◌==◌ as str_eq}
use text.Mathlib.TextEquality.{eq_iff}
use dchat_desktop.Types.{Message}
use dchat_desktop.Table.{find, IsKeyed, find-update, find-key}
use dchat_desktop.Store.Db.{IsIntact, message_key}
use dchat_desktop.Store.Messages.{
  find_by_id, find_expired, mark_deleted, set_row, as_deleted, is_expired,
}
use dchat_desktop.Store.Sessions
use dchat_desktop.Store.Intact.Rules.{Intact, intact_rules}
use dchat_desktop.Exec.{World, ok, next, for_each, caught, for_each-ok, Keeps, keeps_rules}
use dchat_desktop.Chat.Burn.{burn_round, burn_one, clear_preview, affected}

find-burn_one :
    (now : ℕ) (m : Message) (j : String) (w : World)
    → find message_key j (burn_one now m w).1.db.messages
      ≡ Option.map
          (λ x. if str_eq m.id x.id then as_deleted now x else x)
          (find message_key j w.db.messages)
unfolding burn_one mark_deleted set_row
find-burn_one now m j w = elim (Option-cases (find message_key j w.db.messages)) [
  | inl e ↦
      rw e
        (ground (arith, find-update message_key m.id j (as_deleted now) w.db.messages (λ r. refl)))
  | inr (x, e) ↦ rw e (
      ground (
        arith,
        find-update message_key m.id j (as_deleted now) w.db.messages (λ r. refl),
        find-key message_key j w.db.messages x e,
      ))
]

listed : String → List Message → Bool
listed j [] = false
listed j (x ∷ xs) = if str_eq x.id j then true else listed j xs

burn_one-ok : (now : ℕ) (m : Message) (w : World) → (burn_one now m w).0 ≡ ok tt
unfolding burn_one
burn_one-ok now m w = refl

clear_preview-ok : (now : ℕ) (id : String) (w : World) → (clear_preview now id w).0 ≡ ok tt
unfolding clear_preview
clear_preview-ok now id w = refl

burned : ℕ → List Message → Message → Message
burned now xs m = if listed m.id xs then as_deleted now m else m

burned-cons :
    (now : ℕ) (x : Message) (xs : List Message) (m : Message)
    → burned now xs (if str_eq x.id m.id then as_deleted now m else m) ≡ burned now (x ∷ xs) m
unfolding burned listed
burned-cons now x xs m = ground arith

burned-map :
    (now : ℕ) (x : Message) (xs : List Message) (o : Option Message)
    → Option.map
        (burned now xs)
        (Option.map (λ m. if str_eq x.id m.id then as_deleted now m else m) o)
      ≡ Option.map (burned now (x ∷ xs)) o
burned-map now x xs none = refl
burned-map now x xs (some m) = ap some (burned-cons now x xs m)

burned-nil : (now : ℕ) (o : Option Message) → o ≡ Option.map (burned now []) o
unfolding burned listed
burned-nil now none = refl
burned-nil now (some m) = refl

find-burn_all :
    (now : ℕ) (xs : List Message) (j : String) (w : World)
    → find message_key j (for_each xs (burn_one now) w).1.db.messages
      ≡ Option.map (burned now xs) (find message_key j w.db.messages)
unfolding for_each
find-burn_all now [] j w = burned-nil now (find message_key j w.db.messages)
find-burn_all now (x ∷ xs) j w =
    let w' = (burn_one now x w).1 in
    rw (burn_one-ok now x w, next)
      (find-burn_all now xs j w'
        ∙ ap (Option.map (burned now xs)) (find-burn_one now x j w)
        ∙ burned-map now x xs (find message_key j w.db.messages))

listed-select-none :
    (j : String) (p : Message → Bool) (ms : List Message)
    → find message_key j ms ≡ none
    → listed j (select p ms) ≡ false
unfolding find listed select
listed-select-none j p [] h = refl
listed-select-none j p (m ∷ ms) h = ground (arith, listed-select-none j p ms)

listed-select :
    (j : String) (p : Message → Bool) (ms : List Message) (m : Message)
    → IsKeyed message_key ms
    → find message_key j ms ≡ some m
    → listed j (select p ms) ≡ p m
unfolding find listed select
listed-select j p [] m v h = cc
listed-select j p (x ∷ ms) m v h =
    ground (arith, listed-select j p ms m v.1, listed-select-none j p ms, eq_iff x.id j)

clear_preview-messages :
    (now : ℕ) (id : String) (w : World) → (clear_preview now id w).1.db.messages ≡ w.db.messages
unfolding clear_preview Sessions.update_last_message Sessions.set_row
clear_preview-messages now id w = refl

clear_all-messages :
    (now : ℕ) (ids : List String) (w : World)
    → (for_each ids (clear_preview now) w).1.db.messages ≡ w.db.messages
unfolding for_each
clear_all-messages now [] w = refl
clear_all-messages now (id ∷ ids) w =
    rw (clear_preview-ok now id w, next)
      (clear_all-messages now ids (clear_preview now id w).1 ∙ clear_preview-messages now id w)

burn_round-messages :
    (now : ℕ) (w : World)
    → (burn_round now w).1.db.messages
      ≡ (for_each (find_expired now w.db) (burn_one now) w).1.db.messages
unfolding burn_round
burn_round-messages now w =
    let xs = find_expired now w.db in
    let w' = (for_each xs (burn_one now) w).1 in
    rw
      (
        for_each-ok (burn_one now) (burn_one-ok now) xs w,
        next,
        for_each-ok (clear_preview now) (clear_preview-ok now) (affected xs []) w',
        caught,
      )
      (clear_all-messages now (affected xs []) w')

-- The time to burn a message has come.
abbrev is_past : Option ℕ → ℕ → Bool
is_past none now = false
is_past (some at) now = leb at now

abbrev pub after_round : ℕ → Message → Message
after_round now m =
    if is_past m.delete_at now && not m.is_delete
    then record m { is_delete = true; updated_at = now }
    else m

-- On an intact database a round of the burn scheduler marks as deleted exactly the messages that have
-- a time to burn, which has come, and are not deleted yet; every other message is as it was.
pub find-burn_round :
    (now : ℕ) (j : String) (w : World)
    → IsIntact w.db
    → find_by_id j (burn_round now w).1.db ≡ Option.map (after_round now) (find_by_id j w.db)
unfolding find_by_id find_expired
find-burn_round now j w v =
    ap (find message_key j) (burn_round-messages now w)
    ∙ find-burn_all now (find_expired now w.db) j w
    ∙ chosen
  where
    chosen :
        Option.map (burned now (find_expired now w.db)) (find message_key j w.db.messages)
        ≡ Option.map (after_round now) (find message_key j w.db.messages)
    chosen = elim (Option-cases (find message_key j w.db.messages)) [
      | inl e ↦ rw e
      | inr (m, e) ↦ rw e (
          unfold burned in
          ground (
            arith,
            listed-select j (is_expired now) w.db.messages m v.messages e,
            find-key message_key j w.db.messages m e,
          ))
    ]

select-eq-nil :
    (p : Message → Bool) (ms : List Message)
    → IsKeyed message_key ms
    → ((j : String) (m : Message) → find message_key j ms ≡ some m → p m ≡ false)
    → select p ms ≡ []
unfolding select find
select-eq-nil p [] v h = refl
select-eq-nil p (x ∷ ms) v h =
    let rest = select-eq-nil p ms v.1 (λ j m e. h j m (ground (arith, eq_iff x.id j))) in
    ground (arith, rest, h x.id x (ground (arith, eq_iff x.id x.id)))

burn_round-Intact : (now : ℕ) → Keeps Intact (burn_round now)
unfolding burn_round burn_one clear_preview
burn_round-Intact now = search (keeps_rules, intact_rules) depth 12

-- After a round on an intact database no message is due.
pub find_expired-burn_round :
    (now : ℕ) (w : World) → IsIntact w.db → find_expired now (burn_round now w).1.db ≡ []
unfolding find_expired find_by_id
find_expired-burn_round now w v =
    select-eq-nil (is_expired now) (burn_round now w).1.db.messages
      ((burn_round-Intact now).at w (record { db = v })).db.messages
      (λ j m e. done (find message_key j w.db.messages) m (sym (find-burn_round now j w v) ∙ e))
  where
    done :
        (o : Option Message) (m : Message)
        → Option.map (after_round now) o ≡ some m
        → is_expired now m ≡ false
    done none m e = cc
    done (some x) m e = ground arith
