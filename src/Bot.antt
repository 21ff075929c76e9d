-- ===== src/Bot.antt =====
-- app/trading/application/bot_lifecycle.py: the commands on a trading bot, its start-up checks,
-- and app/trading/application/live_strategies.py, which one of the checks calls.
pub mod Types
pub mod Strategy
pub mod Startup
pub mod Orders
pub mod Commands
pub mod Cancelling
pub mod Lockstep
pub mod Transitions
pub mod Outcomes
pub mod Stopping
pub mod Starting
pub mod Blocking
mod Failure
pub mod Rows
pub mod Failing
pub mod Tests
