-- ===== src/Risk.antt =====
-- app/trading/application/risk_gate.py: the limits on an order, and what its verdict does to the
-- trading halts; and the locks of app/trading/application/risk_locks.py.
pub mod Types
pub mod Sizing
pub mod Checks
pub mod Evaluate
pub mod Indicators
pub mod Queries
pub mod Signals
mod Wording
pub mod Locks
pub mod Agreement
pub mod Limits
pub mod Approval
pub mod Sync
pub mod Reflected
pub mod Recorded
pub mod Halting
pub mod Blocking
pub mod Approved
pub mod Locked
mod Tests
