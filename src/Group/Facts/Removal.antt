-- ===== src/Group/Facts/Removal.antt =====
-- private-group-service.ts: what a removal leaves: `kickOut` and `onMemberQuit`.
use dchat_desktop.Common.{
  ℕ, String, true, false, some, List, ◌≡◌, refl, length, pair_eq, string_eq, beq_self, arith,
}
use dchat_desktop.Common.Int.{ℤ, ltb_ℤ}
use dchat_desktop.Table.{find, find-update}
use dchat_desktop.Types.{MessageData}
use dchat_desktop.Types.Group.{PrivateGroup, Member}
use dchat_desktop.Types.Perm
use dchat_desktop.Store.Db.{group_key, member_key}
use dchat_desktop.Store.Groups
use dchat_desktop.Store.Members
use dchat_desktop.Types.Raw.{RawMember}
use dchat_desktop.Group.Payload.{parsed, ◌or_string◌}
use dchat_desktop.Group.Platform.{Platform, verify_signature, get_pub_key_from_address}
use dchat_desktop.Group.Sync.{is_active_member, recount}
use dchat_desktop.Group.Owner.{kick_out}
use dchat_desktop.Group.Leaving.{remove_member, on_member_quit}
use dchat_desktop.Group.Facts.{About, about_rules}
use dchat_desktop.Exec.{
  World, ok, modify, Keeps, Keeps-modify, Reaches, Lands, Lands-modify, lands_rules,
  Reaches-of_Lands, reach_rules,
}

abbrev pub Inactive : String → String → List PrivateGroup → List Member → Type 0
Inactive group_id who groups members =
    is_active_member (find member_key (group_id, who) members) ≡ false

-- The group, if it is known, counts its active members.
abbrev pub Counted : String → List PrivateGroup → List Member → Type 0
Counted group_id groups members =
    (g : PrivateGroup)
    → find group_key group_id groups ≡ some g
    → g.count ≡ length (Members.active_rows group_id members)

module _ (group_id who : String) where
  set_count-Inactive :
      (id : String) (count now : ℕ)
      → Keeps (About (Inactive group_id who)) (modify (Groups.set_count id count now))
  unfolding Groups.set_count Groups.set_row
  set_count-Inactive id count now = Keeps-modify _ (λ w v. record { tables = v.tables })

  recount-Inactive :
      (id : String) (now : ℕ) → Keeps (About (Inactive group_id who)) (recount id now)
  unfolding recount
  recount-Inactive id now = search (about_rules, set_count-Inactive)

  -- A permission that is not above `none` deactivates.
  update_permission-Inactive :
      (permission : ℤ)
      → ltb_ℤ Perm.none permission ≡ false
      → Lands
          (About (Inactive group_id who))
          (modify (Members.update_permission group_id who permission))
  unfolding Members.update_permission
  update_permission-Inactive permission h = Lands-modify _ (λ w. record {
    tables = ground (
      arith,
      h,
      find-update member_key (group_id, who) (group_id, who)
          (λ m. record m { permission = permission }) w.db.members (λ m. refl),
      beq_self {K = String × String} (group_id, who),
    );
  })

module _ (group_id : String) where
  recount-Counted : (now : ℕ) → Lands (About (Counted group_id)) (recount group_id now)
  unfolding recount Groups.set_count Groups.set_row Members.find_active_members
  recount-Counted now = record {
    at = λ w. record {
      tables = λ g h. ground (
        arith,
        h,
        find-update group_key group_id group_id
            (λ g. record g {
              count = length (Members.active_rows group_id w.db.members);
              updated_at = now;
            })
            w.db.groups (λ g. refl),
        beq_self group_id,
      );
    };
  }

module _ (group_id target id : String) (now : ℕ) where
  kick_out-Counted : Reaches (About (Counted group_id)) (kick_out group_id target id now)
  unfolding kick_out
  kick_out-Counted =
      let counted = Reaches-of_Lands _ (recount-Counted group_id now) in
      search (reach_rules, about_rules, counted) depth 20

  -- When a kick returns, the count of the group is the number of its active members.
  pub kick_out-counts :
      (w : World) (g : PrivateGroup)
      → (kick_out group_id target id now w).0 ≡ ok tt
      → Groups.find_by_id group_id (kick_out group_id target id now w).1.db ≡ some g
      → g.count
        ≡ length (Members.find_active_members group_id (kick_out group_id target id now w).1.db)
  unfolding Groups.find_by_id Members.find_active_members
  kick_out-counts w g h e = (kick_out-Counted.at w tt h).tables g e

module _ (group_id invitee src : String) (d : MessageData) (now : ℕ) where
  remove_member-Inactive :
      Lands (About (Inactive group_id invitee)) (remove_member group_id invitee src d now)
  unfolding remove_member
  remove_member-Inactive =
      let quitted = update_permission-Inactive group_id invitee Perm.quit refl in
      search (lands_rules, about_rules, recount-Inactive, quitted) depth 20

  remove_member-Counted :
      Lands (About (Counted group_id)) (remove_member group_id invitee src d now)
  unfolding remove_member
  remove_member-Counted = search (lands_rules, about_rules, recount-Counted) depth 20

  on_member_quit-remove_member :
      (p : Platform) (raw : RawMember) (w : World)
      → parsed p.parse_member d ≡ some raw
      → raw.invitee or_string src ≡ invitee
      → raw.camel.group_id or_string "" ≡ group_id
      → verify_signature p
          (get_pub_key_from_address invitee)
          (raw.camel.invitee_raw_data or_string raw.raw_data or_string "")
          (raw.camel.invitee_signature or_string raw.signature or_string "")
        ≡ true
      → on_member_quit p src d now w ≡ remove_member group_id invitee src d now w
  unfolding on_member_quit
  on_member_quit-remove_member p raw w parse who group signed = rw (parse, who, signed, group) refl

  -- A quit message with a signature of the invitee over any text removes the invitee from the group: the
  -- member is not active afterwards, and the count of the group, if it is known, is the number of its
  -- active members, even if the handler fails later on.
  pub on_member_quit-leaves :
      (p : Platform) (raw : RawMember) (w : World)
      → parsed p.parse_member d ≡ some raw
      → raw.invitee or_string src ≡ invitee
      → raw.camel.group_id or_string "" ≡ group_id
      → verify_signature p
          (get_pub_key_from_address invitee)
          (raw.camel.invitee_raw_data or_string raw.raw_data or_string "")
          (raw.camel.invitee_signature or_string raw.signature or_string "")
        ≡ true
      → let after = (on_member_quit p src d now w).1 in
        (is_active_member (Members.find_by_group_id_and_invitee group_id invitee after.db) ≡ false)
        × ((g : PrivateGroup)
            → Groups.find_by_id group_id after.db ≡ some g
            → g.count ≡ length (Members.find_active_members group_id after.db))
  unfolding Members.find_by_group_id_and_invitee Groups.find_by_id Members.find_active_members
  on_member_quit-leaves p raw w parse who group signed =
      rw (on_member_quit-remove_member p raw w parse who group signed)
        ((remove_member-Inactive.at w).tables, (remove_member-Counted.at w).tables)
