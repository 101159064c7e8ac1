-- ===== src/Rag.antt =====
-- common/rag/chunk.go: a Markdown document is cut into chunks.
pub mod Boundaries
pub mod Headings
pub mod Chunk
pub mod Ranges
pub mod Ends
pub mod Round
pub mod Cutting
pub mod Documents
pub mod Stuck
pub mod Identity
mod Tests
