-- ===== src/Coordinator.antt =====
-- The staged launch of bots of runtime/core/bot_coordinator.py.
pub mod State
pub mod Delay
pub mod Launcher
pub mod Choice
pub mod Fuel
pub mod Stuck
pub mod Sliding
mod Tests
