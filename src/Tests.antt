-- ===== src/Tests.antt =====
-- Runs of the modelled code on concrete inputs, and each theorem at one of them.
mod Approval
mod Audit
mod Auth
mod Credentials
mod Mcp
mod Pairing
mod Protocol
mod Http
mod Registry
mod WebSocket
mod Window
