-- ===== src/Group/Platform.antt =====
-- What the services take from Node and its libraries: JSON, hashes and signatures; and
-- ed25519-signature.ts, which stands on these.
use Prim.Native.String.{[], ◌∷◌}
use Prim.Native.Char.{code}
use dchat_desktop.Common.{ℕ, String, Bool, true, Option, ◌≡◌, nat_eq, if◌then◌else◌}
use dchat_desktop.Common.Int.{ℤ}
use dchat_desktop.Types.Raw.{RawInvitation, RawMember, RawMembers, RawOptions}

-- The objects that `buildMemberRawData` and `buildGroupRawData` print, with their keys in order.
pub record MemberFields : Type 0 where
  pub expires_at : ℕ
  pub group_id : String
  pub invitee : String
  pub inviter : String
  pub permission : ℤ

pub record GroupFields : Type 0 where
  pub delete_after_seconds : ℕ
  pub group_id : String
  pub name : String
  pub kind : ℕ

-- The content of the note that `invite` leaves in the inviter's own session.
pub record InviteNote : Type 0 where
  pub group_id : String
  pub name : String
  pub inviter : String
  pub invitee : String

-- `ed_verify` is false also where libsodium throws. A parser gives none where `JSON.parse` throws.
pub record Platform : Type 0 where
  pub member_json : MemberFields → String
  pub group_json : GroupFields → String
  pub note_json : InviteNote → String
  pub parse_invitation : String → Option RawInvitation
  pub parse_member : String → Option RawMember
  pub parse_members : String → Option RawMembers
  pub parse_options : String → Option RawOptions
  pub sha256 : String → String
  pub md5 : String → String
  pub ed_sign : (private_key message : String) → String
  pub ed_verify : (signature message public_key : String) → Bool

-- The keys of the connected client.
pub record Identity : Type 0 where
  pub private_key : String
  pub public_key : String

-- The last segment of an address that is split at its dots.
last_segment : String → String → String
last_segment start [] = start
last_segment start (c ∷ s) = last_segment (if nat_eq (code c) b'.' then s else start) s

unfoldable pub get_pub_key_from_address : String → String
unfolding last_segment
get_pub_key_from_address address = last_segment address address

module _ (p : Platform) where
  abbrev pub gen_signature : String → String → String
  gen_signature private_key raw_data = p.ed_sign private_key (p.sha256 raw_data)

  abbrev pub verify_signature : String → String → String → Bool
  verify_signature public_key raw_data signature =
      p.ed_verify signature (p.sha256 raw_data) public_key

  -- What the code relies on: a signature made with the private key of an identity verifies.
  abbrev pub Verifies : Identity → Type 0
  Verifies me =
      (message : String)
      → p.ed_verify (p.ed_sign me.private_key message) message me.public_key ≡ true
