-- ===== src/Halt.antt =====
-- app/trading/application/trading_halt.py: the trading-halt state machine over the
-- `trading_halt` table, and the Owner's release endpoints of app/api/routes/trading_halts.py.
mod Types
pub mod Announce
mod Transitions
mod Release
pub mod Keys
pub mod Invariant
pub mod Fresh
pub mod Escalation
pub mod Relaxation
pub mod Runs
pub mod Owner
pub mod Tests
pub use Types.*
unfoldable pub use Transitions.{
  find_active_halt, activate_or_escalate, deescalate_one_step, most_recently_released_halt,
  last_release_time, has_active_halt_at_or_above,
}
unfoldable pub use Release.{
  release_lock, release_emergency_stop, release_trading_halt, emergency_release_trading_halt,
}
