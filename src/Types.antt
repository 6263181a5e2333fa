-- ===== src/Types.antt =====
-- src/shared/types: the records that the services and the repositories exchange.
-- Times and durations are natural numbers of milliseconds or seconds. JSON text that the program
-- stores or sends (`options`, the content of a group control message) is kept as its parsed value.
pub mod Group
pub mod Perm
pub mod Wire
pub mod Raw
pub mod Topic
use dchat_desktop.Common.{ℕ, String, Bool, Option, List}

-- message.ts: `other` is any tag that the program gives no meaning to, such as "ping".
pub data ContentType : Type 0 where
  text text_extension image audio video file ipfs piece receipt contact contact_options :
      ContentType
  device_info device_request topic_subscribe topic_unsubscribe : ContentType
  group_invitation group_accept group_subscribe group_quit group_option_request : ContentType
  group_option_response group_member_request group_member_response read : ContentType
  discovery_broadcast voice_call_invite voice_call_accept voice_call_decline : ContentType
  voice_call_end voice_call_video_toggle other : ContentType

pub data Status : Type 0 where
  sending sent delivered read failed : Status

-- A `fileType` of n and one of "n" mean the same to the program, and are one number here.
pub record MessageOptions : Type 0 where
  pub delete_after_seconds : Option ℕ
  pub update_burn_after_at : Option ℕ
  pub profile_version : Option String
  pub ipfs_hash : Option String
  pub ipfs_ip : Option String
  pub ipfs_encrypt_key_bytes : Option (List ℕ)
  pub ipfs_encrypt_nonce_size : Option ℕ
  pub ipfs_thumbnail_hash : Option String
  pub ipfs_thumbnail_ip : Option String
  pub ipfs_thumbnail_encrypt_key_bytes : Option (List ℕ)
  pub ipfs_thumbnail_encrypt_nonce_size : Option ℕ
  pub file_type : Option ℕ
  pub file_name : Option String
  pub file_ext : Option String

pub record MessageData : Type 0 where
  pub id : String
  pub content_type : Option ContentType
  pub content : Option String
  pub options : Option MessageOptions
  pub topic : Option String
  pub group_id : Option String
  pub target_id : Option String
  pub read_ids : Option (List String)
  pub timestamp : Option ℕ

pub record Message : Type 0 where
  pub id : String
  pub session_id : String
  pub sender : String
  pub receiver : String
  pub content_type : ContentType
  pub content : String
  pub status : Status
  pub is_outbound : Bool
  pub nkn_message_id : Option String
  pub options : Option MessageOptions
  pub local_file_path : Option String
  pub thumbnail_local_file_path : Option String
  pub delete_at : Option ℕ
  pub is_delete : Bool
  pub created_at : ℕ
  pub updated_at : ℕ

pub data SessionType : Type 0 where
  direct topic private_group : SessionType

pub record Session : Type 0 where
  pub id : String
  pub kind : SessionType
  pub target_address : String
  pub target_name : String
  pub last_message_content : String
  pub last_message_at : ℕ
  pub unread_count : ℕ
  pub muted : Bool
  pub created_at : ℕ
  pub updated_at : ℕ

pub record Contact : Type 0 where
  pub address : String
  pub name : String
  pub avatar_uri : Option String
  pub profile_version : Option String
  pub burn_after_seconds : Option ℕ
  pub burn_update_at : Option ℕ
  pub created_at : ℕ
  pub updated_at : ℕ
