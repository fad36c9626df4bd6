-- ===== src/Mcpserver.antt =====
-- The MCP server, internal/mcpserver: how it writes a path into a statement (pools.go).
pub mod Quotes
