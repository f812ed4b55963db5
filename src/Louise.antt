-- ===== src/Louise.antt =====
-- The accumulation bot of runtime/bot/louise.py over its store, runtime/core/louise_db.py.
pub mod Store
pub mod State
pub mod Fills
pub mod Orders
pub mod Poll
pub mod Start
pub mod Recovery
pub mod Buys
pub mod Profit
pub mod Averages
pub mod Stale
pub mod Paper
pub mod Blocked
pub mod Fixtures
mod Tests
mod FillTests
