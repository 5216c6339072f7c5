-- ===== src/ApiServer.antt =====
-- crates/api-server/src/lib.rs: the gateway around the kernel.
pub mod CircuitBreaker
pub mod ResilientProvider
pub mod DurableStore
pub mod ResponsesStore
pub mod JobRuntime
pub mod Admission
pub mod TenantLimiter
pub mod RequestContext
pub mod Batch
