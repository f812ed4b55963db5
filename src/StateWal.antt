-- ===== src/StateWal.antt =====
-- The snapshots of runtime/core/state_wal.py.
pub mod Snapshot
pub mod RoundTrip
mod Tests
