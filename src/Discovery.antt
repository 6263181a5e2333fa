-- ===== src/Discovery.antt =====
-- src/main/services/discovery-service.ts: the groups that the clients announce to one another.
pub mod Cache
pub mod Announcing
pub mod Timers
pub mod Receiving
pub mod Keeping
pub mod Routed
pub mod Facts
