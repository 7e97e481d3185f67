-- ===== src/Client.antt =====
-- internal/adapters/httpclient/client.go: one attempt to call a target. Name resolution, the transport
-- and the formatting packages are arguments.
pub mod Resolve
pub mod Dispatch
pub mod Allowed
pub mod Outcome
