-- ===== src/Lib.antt =====
-- The GOFFY Hub: the server that a paired phone talks to and that runs desktop tools for it. This
-- library models its Python code in hub/src/goffy_hub and protocol/python/goffy_protocol/models.py.
--
-- The parts and the files that model them:
--   Prelude      Python's dict and exceptions, lists, SQL tables, equality of keys.
--   Protocol     models.py: message types, payloads, `ToolCapability`; JSON values (Values), the
--                normalisation and the checks of JSON schemas (Schema), capabilities (Capability).
--   Approval     approval.py: `ApprovalArtifactStore` with `issue`, `consume` and `discard`, and
--                the proof that the device signs.
--   Registry     registry.py: `ToolRegistry` with registration, sealing, health, discovery,
--                `preflight` and `invoke_prepared`; tool_health.py (Monitor).
--   Credentials  credentials.py: `CredentialStore` over the SQL table `paired_credentials`.
--   Pairing      pairing.py: `PairingService` with `begin` and `complete`.
--   Auth         auth.py: principals, their scopes and permissions (Principal), and
--                `CredentialAuthenticator` (Authenticator).
--   Audit        operator_audit.py: the stored hash chain, its verification and `_persist_event`;
--                the events in memory with `record` and `snapshot` (Window).
--   Connections  connections.py: the live sockets of each credential.
--   WebSocket    app.py: the endpoint /ws/v1 from its message loop on, with
--                `_handle_message` and what it calls.
--   Mcp          mcp_server.py: `BoundedMcpEventStore` (EventStore), the bodies, session slots and
--                requests of `_BoundedHttpMessageMiddleware` (Body, Slots, Requests),
--                `GoffyStreamableHTTPSessionManager` and `McpToolListNotifier` (Manager), and
--                `RegistryMcpAdapter` (Adapter).
--   Http         pairing_api.py and operator_audit_api.py: a Hub in paired mode, who may call
--                (Http), requests (PairingRequests), routes (PairingRoutes, AuditRoutes); app.py:
--                the handshake of /ws/v1 while other tasks revoke credentials (Handshake).
--   Tests        runs on concrete inputs.
--
-- How they interact: the endpoint gets its principal from the authenticator, reads the registry,
-- and keeps approval requests in the store that all connections share. The authenticator asks the
-- credential table, which pairing fills. The HTTP routes work on one record of all tables, `Hub`: a
-- revocation changes the credential table, the sockets, the MCP sessions and their slots, and the
-- audit log. MCP calls reach the registry through the adapter.
--
-- State and operations: each object's fields are a record (`ToolRegistry`,
-- `ApprovalArtifactStore`, `Session`) or a list of rows or entries (`Table`, `Pending`), and each
-- method is a function from the old state to the new one and a result. Exceptions are `raise` of
-- `Result`. What a method does between two awaits, under a lock or in a transaction is one step.
-- Clock readings, fresh IDs and drawn tokens are arguments. UUIDs are natural numbers, times are
-- milliseconds (Approval, Registry) or microseconds (Credentials, Pairing, Audit).
--
-- Loops follow a list: the messages of a connection or of a body, the events to evict, the calls of
-- a run. No fuel is needed. MCP requests interleave: each is a `Phase` that moves on step by step, and
-- a run is a list of arrivals, moves and revocations in any order.
--
-- Code that is not in the repository comes in as parameters: cryptography, base64 and JSON texts
-- (`Crypto`), hashing and the encodings of UUIDs and times (`Platform`), pydantic models and JSON
-- sizes (`Models`, `Wire`, `Codec`, `HttpCodec`, `Redemptions`), addresses and headers (`Net`), the
-- answers of handlers and probes (`HandlerOutcome`, `ProbeOutcome`) and of the MCP library
-- (`AppOutcome`).
-- That a time of a credential survives the round trip through its ISO text is a hypothesis where it
-- is needed. `compare_digest` is that of the standard library.
--
-- Not modelled: `_ExactMcpEndpoint`, `HubTokenVerifier` and the wiring of the MCP server, whose
-- transports and base classes are a library, identity files, settings, the desktop tools themselves,
-- and how the database files are created and migrated. The audit log is taken to be the only writer
-- of its database, whose rows stand as they are read. The MCP library adds sessions, under new IDs;
-- that is not a step of the manager here. In the endpoint's message loop the interleaving of several
-- connections on the shared store is left: a connection runs alone from its first message to its
-- last, and so does an HTTP route of Http. The scripts and the Android client are outside the Hub.
pub mod Prelude
pub mod Protocol
pub mod Approval
pub mod Registry
pub mod Auth
pub mod Connections
pub mod Mcp
pub mod Http
pub mod Credentials
pub mod Pairing
pub mod Audit
pub mod WebSocket
mod Tests
