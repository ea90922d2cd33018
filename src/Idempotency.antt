-- ===== src/Idempotency.antt =====
-- services/idempotency.py: the stores of responses, by agent and key, and the replay helpers.
mod Memory
mod Durable
mod Replay
pub mod Recall
pub mod Invariant
pub mod Bounds
pub mod Expiry
pub mod Replays
mod Tests
unfoldable pub use Memory.*
unfoldable pub use Durable.*
unfoldable pub use Replay.*
