-- ===== src/Group/Joining/Handshake.antt =====
-- private-group-service.ts: an invitation that verifies can be accepted.
use dchat_desktop.Common.{
  ℕ, String, true, none, some, List, ◌≡◌, refl, subst, string_eq, pair_eq, beq_self, arith,
  Option-cases, inl, inr,
}
use dchat_desktop.Common.Text.{truthy}
use dchat_desktop.Table.{find, find-upsert}
use dchat_desktop.Table
use dchat_desktop.Types.{MessageData, Message}
use dchat_desktop.Types.Raw.{RawInvitation}
use dchat_desktop.Store.Db.{is_some, session_key, message_key, member_key}
use dchat_desktop.Store.Messages
use dchat_desktop.Store.Sessions
use dchat_desktop.Store.Members
use dchat_desktop.Store.Groups
use dchat_desktop.Group.Platform.{Platform, verify_signature, get_pub_key_from_address}
use dchat_desktop.Group.Payload.{parsed, Invited, read_invitation}
use dchat_desktop.Group.Session.{
  group_session, get_or_create_group_session, new_session, push_session,
}
use dchat_desktop.Group.Owner.{throw_if}
use dchat_desktop.Group.Joining.{
  show_invitation, store_invitation, on_invitation_received, begin_accept, invited_member,
  invitation_message,
}
use dchat_desktop.Group.Facts.{About}
use dchat_desktop.Group.Facts.Joined.{Listed, upsert-Listed}
use dchat_desktop.Exec.{
  Exec, World, require, ok, succeeds, Returns, returns_rules, returns_after, ◌>>=◌, gets, modify,
  attempt, Reaches, reach_rules, Reaches-then, Reaches-of_Lands, when, pure, ok_of_succeeds, ◌>>◌,
}

-- The session is there, and the messages are as before.
record Opened (group_id : String) (messages : List Message) (w : World) : Type 0 where
  session : is_some (find session_key (group_session group_id) w.db.sessions) ≡ true
  same : w.db.messages ≡ messages

get_or_create-Returns :
    (group_id name : String) (now : ℕ) → Returns (get_or_create_group_session group_id name now)
unfolding get_or_create_group_session
get_or_create-Returns group_id name now = search returns_rules depth 15

get_or_create-Opened :
    (group_id name : String) (now : ℕ) (w : World)
    → Opened group_id w.db.messages (get_or_create_group_session group_id name now w).1
unfolding get_or_create_group_session Sessions.find_by_id Sessions.upsert when gets modify pure
    ◌>>=◌
get_or_create-Opened group_id name now w =
    elim (Option-cases (find session_key (group_session group_id) w.db.sessions)) [
      | inl h ↦ rw h (record {
        session = ground (
          arith,
          h,
          find-upsert session_key Sessions.merge
              (Sessions.row_of (new_session group_id name (Groups.find_by_id group_id w.db) now))
              (group_session group_id) w.db.sessions (λ x y. refl),
          beq_self (group_session group_id),
        );
        same = refl;
      })
      | inr (s, h) ↦ rw h (record { session = rw h refl; same = refl })
    ]

insert-Returns :
    (m : Message) (w : World)
    → is_some (find session_key m.session_id w.db.sessions) ≡ true
    → find message_key m.id w.db.messages ≡ none
    → succeeds (attempt (Messages.insert m) w).0 ≡ true
unfolding attempt Messages.insert Table.insert Messages.row_of
insert-Returns m w s h = ground (arith, s, h)

module _ (i : Invited) (src own : String) (d : MessageData) (now : ℕ) where
  show_invitation-Returns : (m : Message) → Returns (show_invitation i m now)
  unfolding show_invitation push_session
  show_invitation-Returns m = search returns_rules depth 30

  show_invitation-Listed :
      (m : Message) → Reaches (About (Listed (invited_member i))) (show_invitation i m now)
  unfolding show_invitation
  show_invitation-Listed m =
      let listed = Reaches-of_Lands _ (upsert-Listed (invited_member i)) in
      search (reach_rules, Reaches-then, listed) depth 15

  m : Message
  m = invitation_message i src own d now

  insert : Exec (Unit {0})
  insert = attempt (Messages.insert m) >> show_invitation i m now

  insert-ok :
      (w : World)
      → is_some (find session_key (group_session i.group_id) w.db.sessions) ≡ true
      → find message_key d.id w.db.messages ≡ none
      → (insert w).0 ≡ ok tt
  unfolding m insert
  insert-ok w there fresh = ok_of_succeeds _ (
      returns_after (attempt (Messages.insert m)) (λ _. show_invitation i m now) w
        (insert-Returns m w there fresh) (λ _. (show_invitation-Returns m).at _))

  store_invitation-insert :
      (w : World)
      → find message_key d.id w.db.messages ≡ none
      → store_invitation i src own d now w
        ≡ insert (get_or_create_group_session i.group_id i.name now w).1
  unfolding store_invitation m insert Messages.find_by_id
  store_invitation-insert w fresh =
      let opened = get_or_create-Opened i.group_id i.name now w in
      let made = ok_of_succeeds _ ((get_or_create-Returns i.group_id i.name now).at w) in
      let after = (get_or_create_group_session i.group_id i.name now w).1 in
      let unknown : find message_key d.id after.db.messages ≡ none = rw opened.same fresh in
      rw (made, unknown) refl

  store_invitation-ok :
      (w : World)
      → find message_key d.id w.db.messages ≡ none
      → ((store_invitation i src own d now w).0 ≡ ok tt)
        × About (Listed (invited_member i)) (store_invitation i src own d now w).1
  unfolding insert
  store_invitation-ok w fresh =
      let after = (get_or_create_group_session i.group_id i.name now w).1 in
      let opened = get_or_create-Opened i.group_id i.name now w in
      let unknown : find message_key d.id after.db.messages ≡ none = rw opened.same fresh in
      let returned = insert-ok after opened.session unknown in
      rw (store_invitation-insert w fresh) (
        returned,
        (Reaches-then (attempt (Messages.insert m)) (λ _. show_invitation i m now)
              (λ _. show_invitation-Listed m)).at
            after tt returned,
      )

module _ (p : Platform) (raw : RawInvitation) (own src : String) (d : MessageData) (now : ℕ) where
  on_invitation_received-store :
      (w : World) (i : Invited)
      → parsed p.parse_invitation d ≡ some raw
      → read_invitation src raw ≡ i
      → truthy (some i.group_id) ≡ true
      → w.account ≡ some own
      → i.invitee ≡ own
      → verify_signature p
          (get_pub_key_from_address i.inviter)
          i.inviter_raw_data
          i.inviter_signature
        ≡ true
      → on_invitation_received p src d now w ≡ store_invitation i src own d now w
  unfolding on_invitation_received
  on_invitation_received-store w i parse read named me for_me signed =
      rw (parse, read, named, me, for_me, beq_self own, signed) refl

  begin_accept-invited :
      (i : Invited) (w : World)
      → w.account ≡ some own
      → find member_key (i.group_id, own) w.db.members ≡ some (invited_member i)
      → verify_signature p
          (get_pub_key_from_address i.inviter)
          i.inviter_raw_data
          i.inviter_signature
        ≡ true
      → begin_accept p i.group_id w ≡ (ok (own, invited_member i), w)
  unfolding begin_accept Members.find_by_group_id_and_invitee require throw_if pure
  begin_accept-invited i w me row signed = rw (me, row, signed) refl

  -- An invitation for the own address whose inviter signature verifies is taken in when its message is
  -- new: the handler returns, the own member is the invited one, whatever it was before, and from then
  -- on, as long as that row is there, `acceptInvitation` passes all its checks.
  pub on_invitation_received-can_accept :
      (w : World) (i : Invited)
      → parsed p.parse_invitation d ≡ some raw
      → read_invitation src raw ≡ i
      → truthy (some i.group_id) ≡ true
      → w.account ≡ some own
      → i.invitee ≡ own
      → verify_signature p
          (get_pub_key_from_address i.inviter)
          i.inviter_raw_data
          i.inviter_signature
        ≡ true
      → Messages.find_by_id d.id w.db ≡ none
      → let after = (on_invitation_received p src d now w).1 in
        ((on_invitation_received p src d now w).0 ≡ ok tt)
        × (Members.find_by_group_id_and_invitee i.group_id own after.db ≡ some (invited_member i))
        × ((later : World)
            → later.account ≡ some own
            → Members.find_by_group_id_and_invitee i.group_id own later.db ≡ some (invited_member i)
            → begin_accept p i.group_id later ≡ (ok (own, invited_member i), later))
  unfolding Members.find_by_group_id_and_invitee Messages.find_by_id
  on_invitation_received-can_accept w i parse read named me for_me signed fresh =
      let stored = store_invitation-ok i src own d now w fresh in
      rw (on_invitation_received-store w i parse read named me for_me signed) (
        stored.0,
        subst
            (λ who.
              find member_key (i.group_id, who) (store_invitation i src own d now w).1.db.members
              ≡ some (invited_member i))
            for_me stored.1.tables,
        (λ later account row. begin_accept-invited i later account row signed),
      )
