-- ===== src/Review.antt =====
-- services/review.py: the checks of a review and the verdict that they add up to.
mod Checks
pub mod Strictness
pub mod Plan
pub mod Graduation
pub mod Approval
mod Tests
unfoldable pub use Checks.*
