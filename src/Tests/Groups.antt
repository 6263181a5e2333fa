-- ===== src/Tests/Groups.antt =====
-- The theorems on private groups at concrete inputs: alice owns the group a.1, bob is a member.
use mathlib.Core.List.Perm
use mathlib.Core.Option
use dchat_desktop.Common.Text.{or_empty}
use dchat_desktop.Common.{false, none, some, [], ◌∷◌, ◌≡◌, refl, string_eq, length, select}
use dchat_desktop.Types.{Message}
use dchat_desktop.Types.Group.{PrivateGroup}
use dchat_desktop.Types.Perm as Rights
use dchat_desktop.Table.{find}
use dchat_desktop.Store.Messages
use dchat_desktop.Store.Groups
use dchat_desktop.Store.Members
use dchat_desktop.Store.Members.Order.{order_by_permission}
use dchat_desktop.Group.Platform.{get_pub_key_from_address}
use dchat_desktop.Group.Payload.{◌or_else◌, parsed, read_invitation}
use dchat_desktop.Group.Version.{gen_group_version, next_commits}
use dchat_desktop.Group.Version.Order.{gen_group_version-perm}
use dchat_desktop.Group.Version.Commits.{next_commits-gen_group_version}
use dchat_desktop.Group.Sync.{is_active_member, on_member_response}
use dchat_desktop.Group.Welcome.{on_invitee_accept}
use dchat_desktop.Group.Leaving.{on_member_quit}
use dchat_desktop.Group.Joining.{on_invitation_received, begin_accept, invited_member}
use dchat_desktop.Group.Joining.Handshake.{on_invitation_received-can_accept}
use dchat_desktop.Group.Joining.EndToEnd.{sent_invitation, invitation_object, as_read}
use dchat_desktop.Group.Facts.Removal.{on_member_quit-leaves}
use dchat_desktop.Group.Facts.Joined.{on_invitee_accept-joins}
use dchat_desktop.Group.Facts.Syncing.{on_member_response-agrees}
use dchat_desktop.Group.Facts.Lists.{permission_of}
use dchat_desktop.Group.Uploads.{Uploaded, image_upload, finish_upload}
use dchat_desktop.Group.Uploads.Settled.{IsSettled}
use dchat_desktop.Chat.Uploads.{finish_image, finish_audio_or_file}
use dchat_desktop.Chat.Uploads.Settled.{uploads_settle}
use dchat_desktop.Chat.Incoming.{no_options}
use dchat_desktop.Exec.{World, ok}
use dchat_desktop.Tests.Fixtures.{letter, hello}
use dchat_desktop.Tests.Members.{
  alice_keys, bob_keys, plain, row, club, platform, at_alice, at_bob, ids, accept, list,
  at_alice-IsIntact,
}

abbrev later : World
later = record at_bob { db = (on_invitation_received platform "alice" hello 30 at_bob).1.db }

on_invitation_received-can_accept_example :
    let i = as_read (sent_invitation plain alice_keys bob_keys "a.1" "alice" "bob" club 20) in
    let after = (on_invitation_received platform "alice" hello 30 at_bob).1 in
    ((on_invitation_received platform "alice" hello 30 at_bob).0 ≡ ok tt)
    × (Members.find_by_group_id_and_invitee "a.1" "bob" after.db ≡ some (invited_member i))
    × ((later : World)
        → later.account ≡ some "bob"
        → Members.find_by_group_id_and_invitee "a.1" "bob" later.db ≡ some (invited_member i)
        → begin_accept platform "a.1" later ≡ (ok ("bob", invited_member i), later))
unfolding parsed read_invitation Messages.find_by_id find get_pub_key_from_address
on_invitation_received-can_accept_example =
    on_invitation_received-can_accept platform
      (invitation_object (sent_invitation plain alice_keys bob_keys "a.1" "alice" "bob" club 20))
      "bob" "alice" hello 30 at_bob
      (as_read (sent_invitation plain alice_keys bob_keys "a.1" "alice" "bob" club 20)) refl refl
      refl refl refl refl refl

-- An accept makes a member even of someone that was kicked out.
on_invitee_accept-joins_example :
    let after = (on_invitee_accept platform "bob" hello ids 40 at_alice).1 in
    (Members.find_by_group_id_and_invitee "a.1" "bob" after.db
      ≡ some (record (row "bob" Rights.normal) {
        expires_at = accept.camel.expires_at or_else 0;
        inviter_raw_data = or_empty accept.camel.inviter_raw_data;
        invitee_raw_data = or_empty accept.camel.invitee_raw_data;
        inviter_signature = or_empty accept.camel.inviter_signature;
        invitee_signature = or_empty accept.camel.invitee_signature;
      }))
    × ((g : PrivateGroup)
        → Groups.find_by_id "a.1" after.db ≡ some g
        → g.count ≡ length (Members.find_active_members "a.1" after.db))
unfolding parsed get_pub_key_from_address
on_invitee_accept-joins_example =
    on_invitee_accept-joins platform "bob" hello ids 40 accept "a.1" "alice" "bob" at_alice refl
      refl refl refl refl

on_member_response-agrees_example :
    permission_of (
      Members.find_by_group_id_and_invitee "a.1" "bob"
        (on_member_response platform hello 40 at_alice).1.db)
    ≡ some Rights.normal
unfolding parsed find select order_by_permission Members.find_by_group_id Groups.find_by_id
    Members.find_by_group_id_and_invitee
on_member_response-agrees_example =
    on_member_response-agrees platform hello 40 list "a.1" at_alice.db at_alice club "bob"
      (row "bob" Rights.normal) at_alice-IsIntact (refl, (refl, tt)) refl refl refl refl refl

on_member_quit-leaves_example :
    let after = (on_member_quit platform "bob" hello 60 at_alice).1 in
    (is_active_member (Members.find_by_group_id_and_invitee "a.1" "bob" after.db) ≡ false)
    × ((g : PrivateGroup)
        → Groups.find_by_id "a.1" after.db ≡ some g
        → g.count ≡ length (Members.find_active_members "a.1" after.db))
unfolding parsed get_pub_key_from_address
on_member_quit-leaves_example =
    on_member_quit-leaves "a.1" "bob" "bob" hello 60 platform accept at_alice refl refl refl refl

next_commits-gen_group_version_example :
    next_commits (gen_group_version platform (some 12) "s" (row "bob" Rights.normal ∷ [])) ≡ some 13
next_commits-gen_group_version_example =
    next_commits-gen_group_version platform 12 "s" (row "bob" Rights.normal ∷ [])

gen_group_version-perm_example :
    gen_group_version platform (some 2) "s" (row "bob" Rights.normal ∷ row "al" Rights.owner ∷ [])
    ≡ gen_group_version platform (some 2) "s" (row "al" Rights.owner ∷ row "bob" Rights.normal ∷ [])
gen_group_version-perm_example =
    gen_group_version-perm platform (some 2) "s"
      (row "bob" Rights.normal ∷ row "al" Rights.owner ∷ [])
      (row "al" Rights.owner ∷ row "bob" Rights.normal ∷ []) (Perm.swap _ _ _)

abbrev picture : Message
picture = letter "m9" "privateGroup:a.1"

abbrev upload : Uploaded
upload = image_upload (record no_options { ipfs_hash = some "Qm" }) "file" "thumb"

uploads_settle_example :
    IsSettled "m9" (finish_image "bob" picture none (some "v1") (some upload) 80 at_alice)
    × IsSettled "m9" (finish_audio_or_file "bob" picture none (some "v1") (some upload) 80 at_alice)
    × IsSettled "m9" (finish_upload "a.1" "alice" picture (some upload) 80 at_alice)
uploads_settle_example =
    uploads_settle "bob" picture none (some "v1") 80 at_alice (some upload) "a.1" "alice"

abbrev at_bobs : World
at_bobs = record at_alice { account = some "bob" }
