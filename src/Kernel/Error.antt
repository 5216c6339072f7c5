-- ===== src/Kernel/Error.antt =====
-- `KernelError` of crates/agent-kernel/src/lib.rs, and the bounds declared beside it.
use miya_api.Prelude.{ℕ, String}
use miya_api.Protocol.Ids.{IsolationKey, ToolCallId, ArtifactId, TaskId}
use miya_api.Provider.{ProviderError}

abbrev pub max_orchestration_repair_attempts : ℕ
max_orchestration_repair_attempts = 3

abbrev pub max_empty_synthesis_retry_attempts : ℕ
max_empty_synthesis_retry_attempts = 2

abbrev pub default_max_semantic_repair_attempts : ℕ
default_max_semantic_repair_attempts = 2

pub data KernelError : Type 0 where
  unknown_tool_call : IsolationKey → ToolCallId → KernelError
  missing_artifact : IsolationKey → ArtifactId → KernelError
  -- the request's scope, the artifact's scope
  artifact_scope_mismatch : IsolationKey → IsolationKey → KernelError
  -- task, depth, max
  spawn_depth_exceeded : TaskId → ℕ → ℕ → KernelError
  -- requested, max
  agent_limit_exceeded : ℕ → ℕ → KernelError
  duplicate_task : TaskId → KernelError
  budget_exceeded : KernelError
  provider : ProviderError → KernelError
  provider_rejected : String → KernelError
  request_timeout : ℕ → KernelError
  agent_timeout : TaskId → ℕ → KernelError
  encryption_failed : KernelError
