-- ===== src/Group/Joining/EndToEnd.antt =====
-- private-group-service.ts: the whole handshake of two clients: `invite`, `onInvitationReceived`,
-- `acceptInvitation` and `onInviteeAccept`.
use mathlib.Core.Option
use dchat_desktop.Common.{ℕ, String, Option, none, some, List, [], ◌∷◌, ◌≡◌, refl, ap, ◌∙◌}
use dchat_desktop.Types.Group.{PrivateGroup, Member}
use dchat_desktop.Types.Raw.{RawInvitation, RawMember}
use dchat_desktop.Types.Wire.{Packet, Invitation, control, invitation, accept}
use dchat_desktop.Types.Perm
use dchat_desktop.Store.Messages
use dchat_desktop.Store.Members
use dchat_desktop.Group.Platform.{Platform, Identity, Verifies, get_pub_key_from_address}
use dchat_desktop.Group.Payload.{Invited, no_item, no_keys, keys_of}
use dchat_desktop.Group.Owner.{invitation_for, finish_invite}
use dchat_desktop.Group.Joining.{
  begin_accept, finish_accept, accept_invitation, invited_member, accepted,
}
use dchat_desktop.Group.Joining.Sending.{finish_invite-sends, finish_accept-sends}
use dchat_desktop.Exec.{World, Sent, ok, next}

-- The objects that `JSON.parse` gives of an invitation and of an accept as they are sent.
abbrev pub invitation_object : Invitation → RawInvitation
invitation_object n = record {
  top = record no_item { group_id = some n.group_id };
  name = some n.name;
  group_name = none;
  kind = some n.kind;
  version = some n.version;
  item = some (record {
    group_id = some n.item.group_id;
    permission = some n.item.permission;
    expires_at = some n.item.expires_at;
    invitee = some n.item.invitee;
    inviter = some n.item.inviter;
    inviter_raw_data = some n.item.inviter_raw_data;
    inviter_signature = some n.item.inviter_signature;
  });
}

abbrev pub accept_object : Member → RawMember
accept_object m = record {
  permission = some m.permission;
  inviter = some m.inviter;
  invitee = some m.invitee;
  camel = keys_of m;
  snake = no_keys;
  raw_data = none;
  signature = none;
}

-- What the invitee reads in the invitation.
abbrev pub as_read : Invitation → Invited
as_read n = record {
  group_id = n.group_id;
  name = n.name;
  kind = n.kind;
  version = n.version;
  inviter = n.item.inviter;
  invitee = n.item.invitee;
  inviter_raw_data = n.item.inviter_raw_data;
  inviter_signature = n.item.inviter_signature;
  expires_at = n.item.expires_at;
}

-- The invitation and the accept in the first packet that was sent.
abbrev invitation_in : Packet → Option Invitation
invitation_in (control id (invitation n) timestamp) = some n
invitation_in _ = none

abbrev accept_in : Packet → Option Member
accept_in (control id (accept m) timestamp) = some m
accept_in _ = none

abbrev pub first_invitation : List Sent → Option Invitation
first_invitation [] = none
first_invitation (s ∷ more) = invitation_in s.packet

abbrev pub first_accept : List Sent → Option Member
first_accept [] = none
first_accept (s ∷ more) = accept_in s.packet

-- What each client relies on: its keys are those of its address, and its signatures verify.
pub record IsClient (p : Platform) (keys : Identity) (address : String) : Type 0 where
  pub key : get_pub_key_from_address address ≡ keys.public_key
  pub verifies : Verifies p keys

module _ (p : Platform) (inviter_keys invitee_keys : Identity) (group_id inviter invitee : String)
    (g : PrivateGroup) (sent_at : ℕ) where
  abbrev pub sent_invitation : Invitation
  sent_invitation = invitation_for p inviter_keys group_id inviter g invitee sent_at

  -- The member that `acceptInvitation` makes of the invitation.
  abbrev pub accepted_invitation : Member
  accepted_invitation =
      accepted p invitee_keys group_id invitee (invited_member (as_read sent_invitation))

  pub first_invitation-finish_invite :
      (uuid : ℕ → String) (a : World)
      → a.account ≡ some inviter
      → a.sent ≡ []
      → first_invitation
          (finish_invite p inviter_keys group_id invitee (inviter, g) uuid sent_at a).1.sent
        ≡ some sent_invitation
  first_invitation-finish_invite uuid a online silent =
      ap first_invitation
        (finish_invite-sends p inviter_keys group_id inviter inviter uuid sent_at a invitee g online
          silent).same

  module _ (uuid : ℕ → String) (now : ℕ) (later : World)
      (begun : begin_accept p group_id later
        ≡ (ok (invitee, invited_member (as_read sent_invitation)), later)) where
    accept_invitation-finish :
        accept_invitation p invitee_keys group_id uuid now later
        ≡ finish_accept p invitee_keys group_id
            (invitee, invited_member (as_read sent_invitation))
            uuid
            now
            later
    unfolding accept_invitation
    accept_invitation-finish = rw (begun, next) refl

    pub first_accept-accept_invitation :
        later.account ≡ some invitee
        → later.sent ≡ []
        → first_accept (accept_invitation p invitee_keys group_id uuid now later).1.sent
          ≡ some accepted_invitation
    first_accept-accept_invitation account quiet =
        ap (λ r. first_accept r.1.sent) accept_invitation-finish
        ∙ ap first_accept
            (finish_accept-sends p invitee_keys group_id invitee invitee uuid now later
              (invited_member (as_read sent_invitation)) account quiet).same
