-- ===== src/McpSchema.antt =====
-- common/mcphub/schema.go: the schemas of MCP tools, and the arguments that are checked against them.
pub mod Json
pub mod Keywords
pub mod Reference
pub mod Node
pub mod Value
pub mod Tool
pub mod Pointer
pub mod Nested
pub mod Sane
pub mod Passing
pub mod Closed
mod Tests
