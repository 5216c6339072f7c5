-- ===== src/Kernel.antt =====
-- crates/agent-kernel/src/lib.rs: the orchestration kernel.
pub mod Error
pub mod ArtifactStore
pub mod ToolLedger
pub mod Policy
pub mod SpawnValidator
pub mod Responses
pub mod Planner
pub mod Runner
pub mod Planning
pub mod Verification
pub mod Synthesis
pub mod Children
