-- ===== src/Table.antt =====
-- An SQLite table as the repositories under src/main/db/repositories use it: the rows in rowid
-- order, looked up, updated and deleted by the primary key.
mod Laws
pub use Laws.*
unfoldable pub use Defs.*
pub mod Order
mod Defs
