-- ===== src/Symmetry.antt =====
-- The guard of the symmetric hub of runtime/core/symmetry_guard.py.
pub mod State
pub mod Pauses
pub mod Preflight
pub mod Capital
pub mod Isolation
pub mod Streaks
pub mod Clearance
pub mod Balance
mod Tests
