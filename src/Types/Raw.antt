-- ===== src/Types/Raw.antt =====
-- What `JSON.parse` gives for the content of a group control message: every key may be missing.
use dchat_desktop.Common.{ℕ, String, Option, List}
use dchat_desktop.Common.Int.{ℤ}

pub record RawItem : Type 0 where
  pub group_id : Option String
  pub permission : Option ℤ
  pub expires_at : Option ℕ
  pub invitee : Option String
  pub inviter : Option String
  pub inviter_raw_data : Option String
  pub inviter_signature : Option String

-- The keys of the item may also stand at the top.
pub record RawInvitation : Type 0 where
  pub top : RawItem
  pub name : Option String
  pub group_name : Option String
  pub kind : Option ℕ
  pub version : Option String
  pub item : Option RawItem

-- The keys of a member entry that come in two spellings.
pub record RawKeys : Type 0 where
  pub group_id : Option String
  pub expires_at : Option ℕ
  pub inviter_raw_data : Option String
  pub invitee_raw_data : Option String
  pub inviter_signature : Option String
  pub invitee_signature : Option String

-- A member entry; `raw_data` and `signature` are the older keys of a quit.
pub record RawMember : Type 0 where
  pub permission : Option ℤ
  pub inviter : Option String
  pub invitee : Option String
  pub camel : RawKeys
  pub snake : RawKeys
  pub raw_data : Option String
  pub signature : Option String

pub record RawMembers : Type 0 where
  pub group_id : Option String
  pub members_data : Option (List RawMember)
  pub members : Option (List RawMember)

pub record RawOptions : Type 0 where
  pub group_id : Option String
  pub version : Option String
  pub count : Option ℕ
  pub signature : Option String
