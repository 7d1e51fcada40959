-- ===== src/Tools.antt =====
-- internal/tools: the service behind the MCP tools.
pub mod Model
pub mod Normalize
pub mod Service
pub mod Operations
pub mod Metadata
pub mod Safety
pub mod Reads
pub mod Completion
pub mod Mcp
mod Examples
mod Tests
