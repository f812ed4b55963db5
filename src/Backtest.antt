-- ===== src/Backtest.antt =====
-- The backtest engine of runtime/backtest/engine.py: the candles that are replayed, the simulated orders
-- and the account they leave.
pub mod Engine
pub mod Sums
pub mod Books
pub mod Replay
pub mod Summary
pub mod Net
mod Tests
