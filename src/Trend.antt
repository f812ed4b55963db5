-- ===== src/Trend.antt =====
-- The trend signal of runtime/modules/trend_signal.py.
pub mod Candles
pub mod Service
pub mod Halves
pub mod Previous
pub mod Locked
pub mod Staleness
mod Tests
