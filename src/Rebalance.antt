-- ===== src/Rebalance.antt =====
-- services/rebalance.py: the weights that a rebalance writes to the live strategies of an account.
pub mod Guardrails
pub mod Notional
pub mod Book
pub mod Clamping
pub mod Bounds
pub mod Targets
pub mod Writes
mod Tests
