-- ===== src/Orphans.antt =====
-- The janitor of orphaned positions of runtime/core/orphan_guard.py.
pub mod Scan
pub mod Recovery
pub mod Stale
pub mod Detection
pub mod Valid
pub mod Retries
mod Tests
