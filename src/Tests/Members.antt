-- ===== src/Tests/Members.antt =====
-- A group of two clients: alice owns the group a.1, bob is a member.
use dchat_desktop.Common.{
  ℕ, String, true, false, none, some, [], ◌∷◌, refl, beq_self, ◌==◌, string_eq, map,
}
use dchat_desktop.Common.Text.{◌++◌}
use dchat_desktop.Types.{MessageData}
use dchat_desktop.Types.Group.{PrivateGroup, Member}
use dchat_desktop.Types.Perm as Rights
use dchat_desktop.Common.Int.{ℤ}
use dchat_desktop.Types.Raw.{RawMember, RawMembers}
use dchat_desktop.Table.{find}
use dchat_desktop.Store.Db.{IsIntact}
use dchat_desktop.Group.Platform.{Platform, Identity, get_pub_key_from_address}
use dchat_desktop.Group.Payload.{to_snake_case}
use dchat_desktop.Group.Messages.{Media}
use dchat_desktop.Group.Joining.EndToEnd.{
  IsClient, sent_invitation, accepted_invitation, invitation_object, accept_object,
}
use dchat_desktop.Exec.{World}
use dchat_desktop.Tests.Fixtures.{stored, hello}

abbrev pub alice_keys : Identity
alice_keys = record { private_key = "alice"; public_key = "alice" }

abbrev pub bob_keys : Identity
bob_keys = record { private_key = "bob"; public_key = "bob" }

-- A platform on which a text is its own hash, and a signature is the key and the text.
abbrev pub plain : Platform
plain = record {
  member_json = λ f. f.invitee;
  group_json = λ f. f.name;
  note_json = λ f. f.invitee;
  parse_invitation = λ s. none;
  parse_member = λ s. none;
  parse_members = λ s. none;
  parse_options = λ s. none;
  sha256 = λ s. s;
  md5 = λ s. s;
  ed_sign = λ key text. key ++ text;
  ed_verify = λ signature text key. signature == (key ++ text);
}

abbrev pub row : String → ℤ → Member
row who permission = record {
  group_id = "a.1";
  permission = permission;
  expires_at = 90;
  inviter = "alice";
  invitee = who;
  inviter_raw_data = "raw";
  invitee_raw_data = "raw";
  inviter_signature = "aliceraw";
  invitee_signature = who ++ "raw";
}

abbrev pub club : PrivateGroup
club = record {
  group_id = "a.1";
  kind = 0;
  name = "club";
  count = 2;
  joined = true;
  signature = "s";
  version = "1.v";
  raw_data = "club";
  created_at = 10;
  updated_at = 10;
}

-- The platform that reads what this group sends.
abbrev pub platform : Platform
platform = record plain {
  parse_invitation = λ s.
      some
        (invitation_object (sent_invitation plain alice_keys bob_keys "a.1" "alice" "bob" club 20));
  parse_member = λ s.
      some
        (accept_object (accepted_invitation plain alice_keys bob_keys "a.1" "alice" "bob" club 20));
  parse_members = λ s. some (record {
    group_id = some "a.1";
    members_data =
        some (map to_snake_case (row "alice" Rights.owner ∷ row "bob" Rights.normal ∷ []));
    members = none;
  });
}

abbrev pub at_alice : World
at_alice = record (stored [] []) {
  db = record (stored [] []).db {
    groups = club ∷ [];
    members = row "alice" Rights.owner ∷ row "bob" Rights.normal ∷ [];
  };
}

abbrev pub at_bob : World
at_bob = record (stored [] []) { account = some "bob" }

abbrev pub ids : ℕ → String
ids n = "id"

abbrev pub media : Media
media = record { save_inline = none; has_images = false; has_files = false; notification = none }

abbrev pub to_group : MessageData
to_group = record hello { group_id = some "a.1" }

pub alice-IsClient : IsClient platform alice_keys "alice"
unfolding get_pub_key_from_address
alice-IsClient = record { key = refl; verifies = λ m. beq_self ("alice" ++ m) }

pub bob-IsClient : IsClient platform bob_keys "bob"
unfolding get_pub_key_from_address
bob-IsClient = record { key = refl; verifies = λ m. beq_self ("bob" ++ m) }

abbrev pub accept : RawMember
accept = accept_object (accepted_invitation plain alice_keys bob_keys "a.1" "alice" "bob" club 20)

abbrev pub list : RawMembers
list = record {
  group_id = some "a.1";
  members_data = some (map to_snake_case (row "alice" Rights.owner ∷ row "bob" Rights.normal ∷ []));
  members = none;
}

pub at_alice-IsIntact : IsIntact at_alice.db
unfolding find
at_alice-IsIntact = record {
  messages = tt;
  sessions = tt;
  contacts = (refl, tt);
  groups = (refl, tt);
  members = (refl, (refl, tt));
  topics = tt;
  subscribers = tt;
  discovered = tt;
  refers = tt;
}
