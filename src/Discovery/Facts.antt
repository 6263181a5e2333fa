-- ===== src/Discovery/Facts.antt =====
-- discovery-service.ts: what announcements, the cleanup and the broadcast do to the known groups.
pub mod Merging
pub mod Cleanup
pub mod Broadcast
pub mod FileNames
