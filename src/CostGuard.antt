-- ===== src/CostGuard.antt =====
-- middleware/costguard/guard.go: the guard of the endpoints that cost model or tool capacity.
pub mod Config
pub mod Guard
pub mod Protect
pub mod Counts
pub mod Caps
pub mod Limits
pub mod Balance
pub mod Bodies
mod Tests
