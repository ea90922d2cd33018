-- ===== src/Sweep.antt =====
-- services/sweep.py: how a sweep derives its parameter combinations.
mod Config
mod Overrides
mod Grid
pub mod Splitting
pub mod Cells
pub mod Derived
pub mod Exhaustion
mod Tests
pub use Config.*
unfoldable pub use Overrides.*
unfoldable pub use Grid.*
