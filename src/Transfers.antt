-- ===== src/Transfers.antt =====
-- The transfers between the master account and the bots of runtime/core/transfer_service.py.
pub mod Service
pub mod Posts
mod Tests
