-- ===== src/Alerts.antt =====
-- The alerts of runtime/core/alert_dispatcher.py.
pub mod Dispatcher
pub mod Telegram
pub mod History
pub mod Dedup
pub mod Retry
mod Tests
