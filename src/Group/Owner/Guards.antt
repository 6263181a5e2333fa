-- ===== src/Group/Owner/Guards.antt =====
-- private-group-service.ts: who may invite and who may kick.
use dchat_desktop.Common.{ℕ, String, true, false, Option, none, some, ◌≡◌, refl, arith}
use dchat_desktop.Types.Group.{PrivateGroup, Member}
use dchat_desktop.Store.Groups
use dchat_desktop.Store.Members
use dchat_desktop.Group.Platform.{Platform, Identity}
use dchat_desktop.Group.Owner.{throw_if, is_below_admin, is_owner, begin_invite, invite, kick_out}
use dchat_desktop.Types.Perm
use dchat_desktop.Exec.{World, err, no_permission, only_owner_kicks, require, throw, pure}

is_owner-below : (o : Option Member) → is_below_admin o ≡ true → is_owner o ≡ false
is_owner-below none h = refl
is_owner-below (some m) h = ground (arith, h)

-- Who is below an admin can neither invite to a known group nor kick anyone out of it: both methods
-- throw, and nothing is stored, sent or shown.
pub invite-kick_out-refused :
    (p : Platform) (me : Identity) (group_id target own id : String) (uuid : ℕ → String) (now : ℕ)
    → (w : World) (g : PrivateGroup) → w.account ≡ some own
    → Groups.find_by_id group_id w.db ≡ some g
    → is_below_admin (Members.find_by_group_id_and_invitee group_id own w.db) ≡ true
    → (invite p me group_id target uuid now w ≡ (err no_permission, w))
      × (kick_out group_id target id now w ≡ (err only_owner_kicks, w))
unfolding invite begin_invite kick_out throw_if require throw pure
invite-kick_out-refused p me group_id target own id uuid now w g account found below = (
  rw (account, found, below) refl,
  rw (account, is_owner-below (Members.find_by_group_id_and_invitee group_id own w.db) below) refl,
)
