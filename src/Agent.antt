-- ===== src/Agent.antt =====
-- dao/agent/agent.go and model/agent.go: the store of agent tasks, with its leases, human approvals,
-- recovery and checkpoints.
pub mod Model
pub mod Platform
pub mod Fence
pub mod Tasks
pub mod Plan
pub mod Review
pub mod Resume
pub mod Recover
pub mod Checkpoint
pub mod Superseded
pub mod Columns
pub mod Calls
pub mod Fencing
pub mod Endings
pub mod Memory
pub mod Retired
pub mod Ownership
pub mod Approval
pub mod Consent
pub mod Claiming
pub mod Planning
pub mod Sweep
pub mod Leased
pub mod Replay
pub mod Envelope
pub mod Fixture
mod Tests
mod RowTests
