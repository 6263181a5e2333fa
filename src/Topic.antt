-- ===== src/Topic.antt =====
-- src/main/services/topic-service.ts and src/main/utils/topic-hash.ts: public topics.
pub mod Session
pub mod Joining
pub mod Messages
pub mod Uploads
pub mod Keeping
pub mod Events
pub mod Facts
