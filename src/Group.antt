-- ===== src/Group.antt =====
-- src/main/services/private-group-service.ts and src/main/crypto/ed25519-signature.ts: the handlers
-- and the methods of the service, up to the transfer of media.
pub mod Platform
pub mod Version
pub mod Payload
pub mod Session
pub mod Sync
pub mod Owner
pub mod Joining
pub mod Welcome
pub mod Control
pub mod Leaving
pub mod Messages
pub mod Uploads
pub mod Facts
pub mod Events
pub mod Keeping
