-- ===== src/Tick.antt =====
-- services/tick.py and services/tick_summary.py: one tick of the research loop.
mod Summary
mod Tables
mod Monad
mod Context
mod Deciding
mod Request
mod Submit
mod Polling
mod Finish
mod Run
pub mod Summaries
pub mod Settles
pub mod Release
pub mod Handover
pub mod Frame
pub mod Routing
pub mod Cancelled
pub mod Samples
mod Tests
pub mod Evidence
pub mod Submissions
pub mod Resuming
pub mod LoggedOnce
unfoldable pub use Summary.*
unfoldable pub use Tables.*
unfoldable pub use Monad.*
unfoldable pub use Context.*
unfoldable pub use Deciding.*
unfoldable pub use Request.*
unfoldable pub use Submit.*
unfoldable pub use Polling.*
unfoldable pub use Finish.*
unfoldable pub use Run.*
