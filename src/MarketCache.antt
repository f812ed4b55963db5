-- ===== src/MarketCache.antt =====
-- The shared cache of runtime/core/market_cache.py.
pub mod State
pub mod Flight
pub mod Keys
pub mod Eviction
pub mod Budget
pub mod Locks
pub mod Fresh
pub mod Dropped
mod Tests
