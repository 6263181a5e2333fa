-- ===== src/Chat.antt =====
-- src/main/services/chat-service.ts
pub mod Sessions
pub mod Receipts
pub mod Notify
pub mod Burn
pub mod Incoming
pub mod Route
pub mod Outgoing
pub mod Downloads
pub mod Uploads
