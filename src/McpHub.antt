-- ===== src/McpHub.antt =====
-- common/mcphub: the approvals that a person gives to the calls of risky tools.
pub mod Model
pub mod Approval
pub mod WellFormed
pub mod Issued
pub mod Kept
pub mod Tried
pub mod Once
pub mod Granted
mod Tests
