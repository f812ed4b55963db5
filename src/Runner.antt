-- ===== src/Runner.antt =====
-- The loop of runtime/bot/_base_runner.py over the API fuse, the weight governor and the coordinator.
pub mod State
pub mod Loop
pub mod Risk
pub mod Drawdown
pub mod Returns
pub mod Runs
pub mod Silence
pub mod Backoff
mod Tests
