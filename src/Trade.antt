-- ===== src/Trade.antt =====
-- app/trading/application/order_flow.py: an order, its simulated fill, the position and the ledger;
-- and app/trading/application/account_valuation.py.
pub mod Types
pub mod Position
pub mod Market
pub mod Fill
pub mod Place
pub mod Guards
pub mod Halted
pub mod Holdings
pub mod Applied
pub mod Postings
pub mod Simulated
pub mod Executed
pub mod Books
pub mod Runs
pub mod Tests
