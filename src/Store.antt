-- ===== src/Store.antt =====
-- The database (internal/store/store.go) and the effects that leave the process. The tables are
-- lists of rows; a statement that fails changes nothing.
pub mod Table
pub mod Schema
pub mod Monad
pub mod Events
unfoldable pub use Table.{update_where, count_where, take_where}
unfoldable pub use Schema.{enqueue_outbox, new_event}
pub use Schema.{Db, World, Sent, Pool}
unfoldable pub use Monad.*
