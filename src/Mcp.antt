-- ===== src/Mcp.antt =====
-- hub/src/goffy_hub/mcp_server.py: the MCP server over streamable HTTP, a part to each child: the
-- store of replayable events, the bounds on sessions and messages, the owners of sessions, the
-- adapter to the tool registry and the endpoint in front. What runs under an `asyncio.Lock` is one
-- step.
pub mod EventStore
pub mod Body
pub mod Slots
pub mod Requests
pub mod Manager
pub mod Adapter
