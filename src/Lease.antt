-- ===== src/Lease.antt =====
-- app/market_data/infrastructure/leases.py: short, fenced ownership of market-data work, with
-- the stop notice of app/market_data/infrastructure/stop_notice.py.
mod Types
mod Notice
mod Recover
mod Store
mod Expiry
mod Tokens
mod Steps
mod Fencing
mod Exclusion
mod Whole
mod Rollback
mod Recovery
mod Tests
