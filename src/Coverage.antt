-- ===== src/Coverage.antt =====
-- app/market_data/domain/coverage.py: which candles a stored series is missing. The classification
-- of a series' coverage is not modelled. Times are in microseconds.
mod Gaps
pub mod Exact
mod Tests
