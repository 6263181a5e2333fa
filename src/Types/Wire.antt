-- ===== src/Types/Wire.antt =====
-- The messages on the NKN network: the JSON objects that the services build and parse.
use dchat_desktop.Common.{ℕ, String, Option, List}
use dchat_desktop.Common.Int.{ℤ}
use dchat_desktop.Types.{MessageData}
use dchat_desktop.Types.Group.{Member}
use dchat_desktop.Types.Raw.{RawMember}
use dchat_desktop.Types.Topic.{AnnouncementGroup}

-- The content of `contactOptions`.
pub record BurnOptions : Type 0 where
  pub option_type : ℕ
  pub delete_after_seconds : ℕ
  pub update_burn_after_at : ℕ

-- `item` of an invitation.
pub record InvitationItem : Type 0 where
  pub group_id : String
  pub permission : ℤ
  pub expires_at : ℕ
  pub invitee : String
  pub inviter : String
  pub inviter_raw_data : String
  pub inviter_signature : String

pub record Invitation : Type 0 where
  pub group_id : String
  pub name : String
  pub kind : ℕ
  pub version : String
  pub item : InvitationItem

pub record GroupOptions : Type 0 where
  pub group_id : String
  pub raw_data : String
  pub version : String
  pub count : ℕ
  pub signature : String

-- The content of a control message, by its content type. An `accept` and a `quit` spell the keys of a
-- member in camel case, a `member_response` in snake case.
pub data Control : Type 0 where
  invitation : Invitation → Control
  accept quit : Member → Control
  member_request : (group_id version : String) → Control
  member_response : (group_id version : String) → List RawMember → Control
  option_response : GroupOptions → Control

-- A contact message: a request, which names the version that the sender has, and the two responses.
pub data ProfilePacket : Type 0 where
  request : (version : String) → ProfilePacket
  header : (version : String) → ProfilePacket
  full : (version name : String) → (avatar : Option String) → ProfilePacket

pub data Packet : Type 0 where
  message : MessageData → Packet
  burn_options : (id : String) → BurnOptions → (timestamp : ℕ) → Packet
  control : (id : String) → Control → (timestamp : ℕ) → Packet
  profile : (id : String) → ProfilePacket → (timestamp : ℕ) → Packet
  announcement : (sender : String) → List AnnouncementGroup → (timestamp : ℕ) → Packet
