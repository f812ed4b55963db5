-- ===== src/Zoo.antt =====
-- The registry of exceptions of runtime/core/exception_zoo.py.
pub mod Registry
pub mod Hits
pub mod Lost
mod Tests
