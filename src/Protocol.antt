-- ===== src/Protocol.antt =====
-- crates/agent-protocol/src/lib.rs: the data that the gateway, the kernel and the providers exchange.
pub mod Json
pub mod Ids
pub mod Limits
pub mod Tasks
pub mod Artifacts
pub mod Request
