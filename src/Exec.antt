-- ===== src/Exec.antt =====
-- The effects of the services of the main process: the database, what is sent through the NKN
-- client, what is pushed to the renderer, the downloads that are started, and exceptions. What was
-- written before an exception stays written, as each statement of better-sqlite3 commits by itself.
mod Laws
mod Reach
mod Landing
mod Returning
pub use Laws.*
pub use Reach.*
pub use Landing.*
pub use Returning.*
unfoldable pub use Monad.*
mod Monad
