-- ===== src/Tools/Mcp.antt =====
-- internal/tools/mcp.go: the tools as an MCP server offers them.
pub mod Schema
pub mod Call
pub mod Inputs
pub mod Strict
mod Tests
