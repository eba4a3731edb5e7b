-- ===== src/McpServer.antt =====
-- The MCP server: internal/mcpserver.
pub mod OAuth
