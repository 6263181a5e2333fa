-- ===== src/Group/Joining/Sending.antt =====
-- private-group-service.ts: what `invite` and `acceptInvitation` send first, and the row that the
-- invitee stores.
use dchat_desktop.Common.{ℕ, String, true, Option, none, some, List, [], ◌∷◌, ◌++◌, ◌≡◌, refl, ap}
use dchat_desktop.Types.Group.{PrivateGroup, Member}
use dchat_desktop.Types.Wire.{Packet, control, invitation, accept}
use dchat_desktop.Store.Db.{Db}
use dchat_desktop.Store.Groups
use dchat_desktop.Group.Platform.{Platform, Identity}
use dchat_desktop.Group.Session.{get_or_create_group_session, push_session, push_group}
use dchat_desktop.Group.Sync.{request_members}
use dchat_desktop.Group.Owner.{invitation_for, finish_invite}
use dchat_desktop.Group.Joining.{accepted, finish_accept}
use dchat_desktop.Group.Facts.{About, about_rules}
use dchat_desktop.Group.Facts.Joined.{Listed, upsert-Listed}
use dchat_desktop.Exec.{
  World, Sent, Push, Exec, modify, attempt, push, send_no_reply, ◌>>=◌, Keeps, keeps_rules, Lands,
  lands_rules, Keeps-modify, Keeps-attempt, holds_after,
}

-- `x` is the first packet that was sent.
pub record StartsWith (x : Sent) (w : World) : Type 0 where
  pub more : List Sent
  pub same : w.sent ≡ x ∷ more

module _ (x : Sent) where
  modify-StartsWith : (f : Db → Db) → Keeps (StartsWith x) (modify f)
  modify-StartsWith f = Keeps-modify f (λ w v. record { more = v.more; same = v.same })

  attempt-StartsWith : (f : Db → Option Db) → Keeps (StartsWith x) (attempt f)
  attempt-StartsWith f = Keeps-attempt f (λ w db v h. record { more = v.more; same = v.same })

  push-StartsWith : (p : Push) → Keeps (StartsWith x) (push p)
  unfolding push
  push-StartsWith p = record { at = λ w v. record { more = v.more; same = v.same } }

  sent-StartsWith :
      (dest : String) (p : Packet) (w : World) (account : Option String)
      → w.account ≡ account
      → StartsWith x w
      → StartsWith x (send_no_reply dest p w).1
  unfolding send_no_reply
  sent-StartsWith dest p w none h v = rw h (record { more = v.more; same = v.same })
  sent-StartsWith dest p w (some own) h v = rw h (record {
    more = v.more ++ record { dests = dest ∷ []; packet = p } ∷ [];
    same = ap (λ xs. xs ++ record { dests = dest ∷ []; packet = p } ∷ []) v.same;
  })

  send_no_reply-StartsWith :
      (dest : String) (p : Packet) → Keeps (StartsWith x) (send_no_reply dest p)
  send_no_reply-StartsWith dest p = record { at = λ w. sent-StartsWith dest p w w.account refl }

  ruleset sent_rules = (
    keeps_rules, modify-StartsWith, attempt-StartsWith, push-StartsWith, send_no_reply-StartsWith,
  )

  push_session-StartsWith : (group_id : String) → Keeps (StartsWith x) (push_session group_id)
  unfolding push_session
  push_session-StartsWith group_id = search sent_rules depth 10

  push_group-StartsWith : (group_id : String) → Keeps (StartsWith x) (push_group group_id)
  unfolding push_group
  push_group-StartsWith group_id = search sent_rules depth 10

  get_or_create_group_session-StartsWith :
      (group_id name : String) (now : ℕ)
      → Keeps (StartsWith x) (get_or_create_group_session group_id name now)
  unfolding get_or_create_group_session
  get_or_create_group_session-StartsWith group_id name now = search sent_rules depth 10

  request_members-StartsWith :
      (to group_id id : String) (now : ℕ)
      → Keeps (StartsWith x) (request_members to group_id id now)
  unfolding request_members
  request_members-StartsWith to group_id id now = search sent_rules depth 10

-- The first packet of a client that has sent nothing.
first-StartsWith :
    (dest own : String) (p : Packet) (w : World)
    → w.account ≡ some own
    → w.sent ≡ []
    → StartsWith (record { dests = dest ∷ []; packet = p }) (send_no_reply dest p w).1
unfolding send_no_reply
first-StartsWith dest own p w h e =
    rw h (record {
      more = [];
      same = ap (λ xs. xs ++ record { dests = dest ∷ []; packet = p } ∷ []) e;
    })

-- A connected client that has sent nothing sends `x` first.
record Opens {A : Type 0} (x : Sent) (m : Exec A) : Type 0 where
  at : (own : String) (w : World) → w.account ≡ some own → w.sent ≡ [] → StartsWith x (m w).1

Opens-send :
    {B : Type 0} (dest : String) (p : Packet) (f : Unit {0} → Exec B)
    → ((a : Unit {0}) → Keeps (StartsWith (record { dests = dest ∷ []; packet = p })) (f a))
    → Opens (record { dests = dest ∷ []; packet = p }) (send_no_reply dest p >>= f)
Opens-send dest p f k = record {
  at = λ own w h e. holds_after (send_no_reply dest p) f w (first-StartsWith dest own p w h e) k;
}

Opens-after_modify :
    {B : Type 0} (x : Sent) (g : Db → Db) (f : Unit {0} → Exec B)
    → ((a : Unit {0}) → Opens x (f a))
    → Opens x (modify g >>= f)
unfolding ◌>>=◌
Opens-after_modify x g f k = record {
  at = λ own w h e. (k tt).at own (record w { db = g w.db }) h e;
}

module _ (p : Platform) (me : Identity) (group_id own address : String) (uuid : ℕ → String)
    (now : ℕ) (w : World) where
  finish_invite-Opens :
      (target : String) (g : PrivateGroup)
      → Opens
          (record {
            dests = target ∷ [];
            packet =
                control (uuid 0) (invitation (invitation_for p me group_id own g target now)) now;
          })
          (finish_invite p me group_id target (own, g) uuid now)
  unfolding finish_invite
  finish_invite-Opens target g =
      search
        (Opens-send, sent_rules, get_or_create_group_session-StartsWith, push_session-StartsWith)
        depth 30

  pub finish_invite-sends :
      (target : String) (g : PrivateGroup)
      → w.account ≡ some address
      → w.sent ≡ []
      → StartsWith
          (record {
            dests = target ∷ [];
            packet =
                control (uuid 0) (invitation (invitation_for p me group_id own g target now)) now;
          })
          (finish_invite p me group_id target (own, g) uuid now w).1
  unfolding finish_invite
  finish_invite-sends target g h e = (finish_invite-Opens target g).at address w h e

  finish_accept-Opens :
      (mine : Member)
      → Opens
          (record {
            dests = mine.inviter ∷ [];
            packet =
                control
                  (uuid 0)
                  (accept (record (accepted p me group_id own mine) {
                    group_id = group_id;
                    invitee = own;
                  }))
                  now;
          })
          (finish_accept p me group_id (own, mine) uuid now)
  unfolding finish_accept
  finish_accept-Opens mine =
      search
        (
          Opens-send, Opens-after_modify, sent_rules, push_group-StartsWith,
          push_session-StartsWith, request_members-StartsWith,
        )
        depth 30

  pub finish_accept-sends :
      (mine : Member)
      → w.account ≡ some address
      → w.sent ≡ []
      → StartsWith
          (record {
            dests = mine.inviter ∷ [];
            packet =
                control
                  (uuid 0)
                  (accept (record (accepted p me group_id own mine) {
                    group_id = group_id;
                    invitee = own;
                  }))
                  now;
          })
          (finish_accept p me group_id (own, mine) uuid now w).1
  unfolding finish_accept
  finish_accept-sends mine h e = (finish_accept-Opens mine).at address w h e

  joined-Listed :
      (m : Member) (id : String) → Keeps (About (Listed m)) (modify (Groups.set_joined id true now))
  unfolding Groups.set_joined Groups.set_row
  joined-Listed m id = Keeps-modify _ (λ w v. record { tables = v.tables })

  request_members-Listed :
      (m : Member) (to id : String) → Keeps (About (Listed m)) (request_members to group_id id now)
  unfolding request_members
  request_members-Listed m to id = search about_rules depth 10

  push_session-Listed : (m : Member) → Keeps (About (Listed m)) (push_session group_id)
  unfolding push_session
  push_session-Listed m = search about_rules depth 10

  finish_accept-Lands :
      (mine : Member)
      → Lands
          (About (Listed (accepted p me group_id own mine)))
          (finish_accept p me group_id (own, mine) uuid now)
  unfolding finish_accept
  finish_accept-Lands mine =
      search
        (
          lands_rules, about_rules, upsert-Listed, joined-Listed, request_members-Listed,
          push_session-Listed,
        )
        depth 30

  pub finish_accept-stores :
      (mine : Member)
      → About
          (Listed (accepted p me group_id own mine))
          (finish_accept p me group_id (own, mine) uuid now w).1
  finish_accept-stores mine = (finish_accept-Lands mine).at w
