-- ===== src/Vault.antt =====
-- The candles of the telemetry vault, runtime/core/telemetry_vault.py.
pub mod Klines
pub mod Order
pub mod Batches
pub mod Split
pub mod Chain
pub mod Ingestion
pub mod Bootstrap
mod Tests
