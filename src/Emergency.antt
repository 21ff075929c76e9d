-- ===== src/Emergency.antt =====
-- app/trading/application/emergency_stop.py: a person stops one bot, or every bot of a workspace.
mod Stop
pub mod Loop
pub mod Outcome
mod Tests
