-- ===== src/Queue.antt =====
-- repo/queue_write.py: the `research_queue` table and every statement that changes it. A statement
-- takes the table, `now` for NOW() where it reads it, and its arguments; it gives the new table
-- and what the code reads back: a row, or the number of affected rows.
mod Schema
mod Table
mod Insert
mod Claiming
mod Transitions
pub mod View
pub mod Order
pub mod Claims
pub mod Invariant
pub mod Fence
pub mod Cancel
pub mod Retry
mod Tests
unfoldable pub use Schema.*
unfoldable pub use Table.*
unfoldable pub use Insert.*
unfoldable pub use Claiming.*
unfoldable pub use Transitions.*
