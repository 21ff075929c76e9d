-- ===== src/Strategy.antt =====
-- The signals of the strategy that a bot can run:
-- app/trading/application/donchian_breakout_signal.py.
pub mod Donchian
pub mod Windows
pub mod Events
pub mod Answers
mod Tests
