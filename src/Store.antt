-- ===== src/Store.antt =====
-- src/main/db: the database, and one module for each repository over it.
pub mod Db
pub mod Messages
pub mod Sessions
pub mod Contacts
pub mod Groups
pub mod Members
pub mod Topics
pub mod Subscribers
pub mod Discovered
pub mod Intact
