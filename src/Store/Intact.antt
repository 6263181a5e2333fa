-- ===== src/Store/Intact.antt =====
-- Every statement of the repositories keeps the primary keys and the foreign key.
pub mod Tables
pub mod Rules
pub mod Topics
