-- ===== src/Drain.antt =====
-- services/tick_drain.py: ticks until a terminal next action or a cap.
mod Loop
pub mod Tallies
pub mod Bounds
pub mod Graduation
mod Tests
unfoldable pub use Loop.*
