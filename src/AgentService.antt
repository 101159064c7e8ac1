-- ===== src/AgentService.antt =====
-- service/agent/graph.go: which step the graph of an agent task takes next, and what its nodes do.
pub mod Route
pub mod Routing
pub mod Script
pub mod Redact
pub mod Nodes
pub mod Planner
pub mod PlanNode
pub mod Gates
pub mod Justify
pub mod Aftermath
pub mod Authority
pub mod Authorised
pub mod Planned
mod Tests
mod NodeTests
