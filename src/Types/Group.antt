-- ===== src/Types/Group.antt =====
-- private-group.ts: groups and their members.
use dchat_desktop.Common.{ℕ, String, Bool}
use dchat_desktop.Common.Int.{ℤ}

pub record PrivateGroup : Type 0 where
  pub group_id : String
  pub kind : ℕ
  pub name : String
  pub count : ℕ
  pub joined : Bool
  pub signature : String
  pub version : String
  pub raw_data : String
  pub created_at : ℕ
  pub updated_at : ℕ

pub record Member : Type 0 where
  pub group_id : String
  pub permission : ℤ
  pub expires_at : ℕ
  pub inviter : String
  pub invitee : String
  pub inviter_raw_data : String
  pub invitee_raw_data : String
  pub inviter_signature : String
  pub invitee_signature : String
