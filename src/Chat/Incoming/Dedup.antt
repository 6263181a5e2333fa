-- ===== src/Chat/Incoming/Dedup.antt =====
-- A message that is delivered twice is stored once.
use dchat_desktop.Common.{
  ℕ, String, true, false, none, some, ◌≡◌, refl, string_eq, arith, Bool-cases, Option-cases, inl,
  inr,
}
use text.Mathlib.TextEquality.{eq_iff}
use dchat_desktop.Types.{Message, MessageData}
use dchat_desktop.Table.{find, find-update, find-append}
use dchat_desktop.Table
use dchat_desktop.Store.Db.{message_key}
use dchat_desktop.Store.Messages
use dchat_desktop.Store.Sessions
use dchat_desktop.Exec.{
  World, ok, Keeps, Reaches, IsQuiet, modify, attempt, Keeps-modify, Reaches-attempt, keeps_rules,
  Reaches-first, Reaches-then, when, with_some,
}
use dchat_desktop.Chat.Notify.{View, show_notification}
use dchat_desktop.Chat.Incoming.{
  Services, ProfileHandlers, is_set, is_acceptable, deliver, handle_direct, store_inbound,
  fetch_media,
}

-- A message with this id is stored.
pub record Known (id : String) (w : World) : Type 0 where
  pub found : is_set (Messages.find_by_id id w.db) ≡ true

pub Known-IsQuiet : (id : String) → IsQuiet (Known id)
Known-IsQuiet id = record {
  sending = λ w s h. record { found = h.found };
  pushing = λ w s h. record { found = h.found };
  starting = λ w s h. record { found = h.found };
}

update_local_file_path-Known :
    (id j path : String) (now : ℕ)
    → Keeps (Known id) (modify (Messages.update_local_file_path j path now))
unfolding Messages.update_local_file_path Messages.set_row Messages.find_by_id
update_local_file_path-Known id j path now = Keeps-modify _ λ w h. record {
  found = ground (
    arith,
    h.found,
    find-update message_key j id (λ m. record m { local_file_path = some path; updated_at = now })
        w.db.messages (λ r. refl),
  );
}

update_delete_at-Known :
    (id j : String) (at now : ℕ) → Keeps (Known id) (modify (Messages.update_delete_at j at now))
unfolding Messages.update_delete_at Messages.set_row Messages.find_by_id
update_delete_at-Known id j at now = Keeps-modify _ λ w h. record {
  found = ground (
    arith,
    h.found,
    find-update message_key j id (λ m. record m { delete_at = some at; updated_at = now })
        w.db.messages (λ r. refl),
  );
}

update_last_message-Known :
    (id j content : String) (at now : ℕ)
    → Keeps (Known id) (modify (Sessions.update_last_message j content at now))
unfolding Sessions.update_last_message Sessions.set_row Messages.find_by_id
update_last_message-Known id j content at now = Keeps-modify _ λ w h. record { found = h.found }

increment_unread-Known :
    (id j : String) (now : ℕ) → Keeps (Known id) (modify (Sessions.increment_unread j now))
unfolding Sessions.increment_unread Sessions.set_row Messages.find_by_id
increment_unread-Known id j now = Keeps-modify _ λ w h. record { found = h.found }

insert-Known : (m : Message) → Reaches (Known m.id) (attempt (Messages.insert m))
unfolding Messages.insert Messages.find_by_id Messages.row_of Table.insert
insert-Known m = Reaches-attempt _ λ w db e. record {
  found =
      ground
        (arith, find-append message_key m.id w.db.messages (Messages.row_of m), eq_iff m.id m.id);
}

ruleset known_rules = (
  Known-IsQuiet, update_local_file_path-Known, update_delete_at-Known, update_last_message-Known,
  increment_unread-Known,
)

show_notification-Known :
    (id : String) (view : View) (title body session : String)
    → Keeps (Known id) (show_notification view title body session)
unfolding show_notification
show_notification-Known id view title body session = search (keeps_rules, known_rules) depth 10

fetch_media-Known :
    (id : String) (services : Services) (d : MessageData) (m : Message) (now : ℕ)
    → Keeps (Known id) (fetch_media services d m now)
unfolding fetch_media
fetch_media-Known id services d m now = search (keeps_rules, known_rules) depth 20

store_inbound-Known :
    (session src : String) (d : MessageData) (m : Message) (now : ℕ)
    → Reaches (Known m.id) (store_inbound session src d m now)
unfolding store_inbound
store_inbound-Known session src d m now =
    Reaches-then _ _
      λ _. Reaches-first _ _ (insert-Known m) λ _. search (keeps_rules, known_rules) depth 20

module _ (services : Services) (src : String) (d : MessageData)
    (profile : (p : ProfileHandlers)
      → services.profile ≡ some p
      → Keeps (Known d.id) (p.check_and_request src d)) where
  deliver-Known :
      (view : View) (own receipt_id : String) (now : ℕ)
      → Reaches (Known d.id) (deliver services view src own d receipt_id now)
  unfolding deliver
  deliver-Known view own receipt_id now = Reaches-then _ _ λ session.
      Reaches-first _ _ (store_inbound-Known session src d _ now) λ _.
        search (keeps_rules, known_rules, show_notification-Known, fetch_media-Known, profile) depth
          20

  module _ (view : View) (receipt_id : String) (now : ℕ) (w : World) where
    refused :
        is_acceptable d ≡ false → handle_direct services view src d receipt_id now w ≡ (ok tt, w)
    unfolding handle_direct
    refused h = rw h

    again : Known d.id w → handle_direct services view src d receipt_id now w ≡ (ok tt, w)
    unfolding handle_direct
    again k = ground (arith, k.found)

    offline : w.account ≡ none → handle_direct services view src d receipt_id now w ≡ (ok tt, w)
    unfolding handle_direct
    offline h = ground arith

    delivered_anew :
        (own : String)
        → is_acceptable d ≡ true
        → is_set (Messages.find_by_id d.id w.db) ≡ false
        → w.account ≡ some own
        → handle_direct services view src d receipt_id now w
          ≡ deliver services view src own d receipt_id now w
    unfolding handle_direct
    delivered_anew own h k a = rw (h, k, a, when, with_some)

  -- A message for the direct chat is stored once: when the handler has returned, a second copy of it,
  -- at any later time and in any view, changes nothing and sends no second receipt. The profile
  -- service must not delete it.
  pub handle_direct_idempotent :
      (view view' : View) (receipt_id receipt_id' : String) (now now' : ℕ) (w : World)
      → (handle_direct services view src d receipt_id now w).0 ≡ ok tt
      → handle_direct services view' src d receipt_id' now'
          (handle_direct services view src d receipt_id now w).1
        ≡ (ok tt, (handle_direct services view src d receipt_id now w).1)
  handle_direct_idempotent view view' receipt_id receipt_id' now now' w e =
      elim (Bool-cases (is_acceptable d)) [
        | inr no_show ↦
            rw (refused view receipt_id now w no_show) (refused view' receipt_id' now' w no_show)
        | inl show ↦ elim (Bool-cases (is_set (Messages.find_by_id d.id w.db))) [
          | inl old ↦
              let k : Known d.id w = record { found = old } in
              rw (again view receipt_id now w k) (again view' receipt_id' now' w k)
          | inr new ↦ elim (Option-cases w.account) [
            | inl gone ↦
                rw (offline view receipt_id now w gone) (offline view' receipt_id' now' w gone)
            | inr (own, there) ↦
                let same = delivered_anew view receipt_id now w own show new there in
                rw same (
                  again view' receipt_id' now' (deliver services view src own d receipt_id now w).1
                    ((deliver-Known view own receipt_id now).at w tt (rw same at e)))
          ]
        ]
      ]
