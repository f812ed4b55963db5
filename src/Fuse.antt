-- ===== src/Fuse.antt =====
-- The thermal circuit breakers of runtime/core/api_fuse.py and runtime/core/order_fuse.py. The two
-- classes keep the same state and have the same transitions but for their constants: `Breaker`
-- holds these once, `Api` and `Order` are the classes themselves.
pub mod Breaker
pub mod Api
pub mod Order
pub mod Calls
pub mod Invariant
pub mod Cooldown
pub mod Escalation
pub mod Alerts
mod Tests
