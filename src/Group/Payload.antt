-- ===== src/Group/Payload.antt =====
-- private-group-service.ts: what the handlers read from a parsed content, with their defaults, and the
-- entries of a member list that the service sends.
pub mod Reading
use Prim.Native.String.{[], ◌∷◌}
use dchat_desktop.Common.{ℕ, String, Option, none, some, List, Bool, true, false}
use dchat_desktop.Common.Int.{ℤ}
use dchat_desktop.Types.{MessageData}
use dchat_desktop.Types.Group.{Member}
use dchat_desktop.Types.Perm
use dchat_desktop.Types.Raw.{RawItem, RawKeys, RawInvitation, RawMember}

-- `a || b` on texts
infixr 40 ◌or_string◌
abbrev pub ◌or_string◌ : Option String → String → String
none or_string t = t
some [] or_string t = t
some (c ∷ s) or_string t = c ∷ s

-- `a ?? b`
infixr 40 ◌or_else◌
abbrev pub ◌or_else◌ {ℓ} : {A : Type ℓ} → Option A → A → A
none or_else b = b
some a or_else b = a

-- `if (!messageData.content) return; try { ... JSON.parse ... } catch { return; }`
unfoldable pub parsed {ℓ} : {A : Type ℓ} → (String → Option A) → MessageData → Option A
parsed {A} parse d = non_empty d.content
  where
    non_empty : Option String → Option A
    non_empty none = none
    non_empty (some []) = none
    non_empty (some (c ∷ s)) = parse (c ∷ s)

-- The fields of an invitation that the handler goes on with.
pub record Invited : Type 0 where
  pub group_id : String
  pub name : String
  pub kind : ℕ
  pub version : String
  pub inviter : String
  pub invitee : String
  pub inviter_raw_data : String
  pub inviter_signature : String
  pub expires_at : ℕ

abbrev pub no_item : RawItem
no_item = record {
  group_id = none;
  permission = none;
  expires_at = none;
  invitee = none;
  inviter = none;
  inviter_raw_data = none;
  inviter_signature = none;
}

unfoldable pub read_invitation : String → RawInvitation → Invited
read_invitation src raw =
    let top = raw.top in
    let item = raw.item or_else no_item in
    record {
      group_id = top.group_id or_string item.group_id or_string "";
      name = raw.name or_string raw.group_name or_string "";
      kind = raw.kind or_else 0;
      version = raw.version or_string "";
      inviter = item.inviter or_string top.inviter or_string src;
      invitee = item.invitee or_string top.invitee or_string "";
      inviter_raw_data = item.inviter_raw_data or_string top.inviter_raw_data or_string "";
      inviter_signature = item.inviter_signature or_string top.inviter_signature or_string "";
      expires_at = item.expires_at or_else top.expires_at or_else 0;
    }

-- An entry of a member list, in either spelling.
unfoldable pub normalise : RawMember → Member
normalise m = record {
  group_id = m.camel.group_id or_string m.snake.group_id or_string "";
  permission = m.permission or_else Perm.none;
  expires_at = m.camel.expires_at or_else m.snake.expires_at or_else 0;
  inviter = m.inviter or_string "";
  invitee = m.invitee or_string "";
  inviter_raw_data = m.camel.inviter_raw_data or_string m.snake.inviter_raw_data or_string "";
  invitee_raw_data = m.camel.invitee_raw_data or_string m.snake.invitee_raw_data or_string "";
  inviter_signature = m.camel.inviter_signature or_string m.snake.inviter_signature or_string "";
  invitee_signature = m.camel.invitee_signature or_string m.snake.invitee_signature or_string "";
}

abbrev pub no_keys : RawKeys
no_keys = record {
  group_id = none;
  expires_at = none;
  inviter_raw_data = none;
  invitee_raw_data = none;
  inviter_signature = none;
  invitee_signature = none;
}

abbrev pub keys_of : Member → RawKeys
keys_of m = record {
  group_id = some m.group_id;
  expires_at = some m.expires_at;
  inviter_raw_data = some m.inviter_raw_data;
  invitee_raw_data = some m.invitee_raw_data;
  inviter_signature = some m.inviter_signature;
  invitee_signature = some m.invitee_signature;
}

unfoldable pub to_snake_case : Member → RawMember
to_snake_case m = record {
  permission = some m.permission;
  inviter = some m.inviter;
  invitee = some m.invitee;
  camel = no_keys;
  snake = keys_of m;
  raw_data = none;
  signature = none;
}
