-- ===== src/McpServer.antt =====
-- The tool server for language models (mcp-server/src).
pub mod Sql
pub mod Answers
pub mod Events
pub mod Tests
