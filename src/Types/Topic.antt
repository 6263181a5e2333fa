-- ===== src/Types/Topic.antt =====
-- topic.ts and discovery.ts: topics with their subscribers, and the groups that others announce.
use dchat_desktop.Common.{ℕ, String, Bool, Option}

pub record Topic : Type 0 where
  pub id : String
  pub joined : Bool
  pub subscribe_at : Option ℕ
  pub expire_block_height : Option ℕ
  pub member_count : ℕ
  pub created_at : ℕ
  pub updated_at : ℕ

pub record TopicSubscriber : Type 0 where
  pub topic_id : String
  pub contact_address : String
  pub created_at : ℕ

-- `joined` is set by the discovery service only; a row of the table has none.
pub record DiscoveredGroup : Type 0 where
  pub topic_name : String
  pub description : Option String
  pub category : Option String
  pub subscriber_count : ℕ
  pub reported_by : String
  pub last_reported_at : ℕ
  pub last_verified_at : Option ℕ
  pub avatar_uri : Option String
  pub joined : Option Bool

pub record Avatar : Type 0 where
  pub base64 : String
  pub ext : String

pub record AnnouncementGroup : Type 0 where
  pub topic_id : String
  pub name : String
  pub description : Option String
  pub category : Option String
  pub subscriber_count : ℕ
  pub avatar : Option Avatar
