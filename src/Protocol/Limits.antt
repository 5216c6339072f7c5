-- ===== src/Protocol/Limits.antt =====
-- ExecutionLimits, AgentLimits, BudgetRequest, BudgetSummary and ReasoningEffort of
-- crates/agent-protocol/src/lib.rs.
use miya_api.Prelude.{ℕ, Bool, true, false}

pub record ExecutionLimits : Type 0 where
  pub max_spawn_depth : ℕ
  pub max_agents_per_request : ℕ
  pub max_parallel_agents : ℕ
  pub max_tool_calls_per_agent : ℕ
  pub max_total_tool_calls : ℕ
  pub max_tokens_per_agent : ℕ
  pub max_total_tokens : ℕ
  pub request_timeout_ms : ℕ
  pub agent_timeout_ms : ℕ

abbrev pub default_execution_limits : ExecutionLimits
default_execution_limits = record {
  max_spawn_depth = 2;
  max_agents_per_request = 8;
  max_parallel_agents = 4;
  max_tool_calls_per_agent = 4;
  max_total_tool_calls = 16;
  max_tokens_per_agent = 2_048;
  max_total_tokens = 16_384;
  request_timeout_ms = 3_600_000;
  agent_timeout_ms = 330_000;
}

pub record AgentLimits : Type 0 where
  pub max_tokens : ℕ
  pub max_tool_calls : ℕ
  pub timeout_ms : ℕ

abbrev pub default_agent_limits : AgentLimits
default_agent_limits = record { max_tokens = 2_048; max_tool_calls = 4; timeout_ms = 330_000 }

pub record BudgetRequest : Type 0 where
  pub max_tokens : ℕ
  pub max_tool_calls : ℕ

pub record BudgetSummary : Type 0 where
  pub token_budget : ℕ
  pub token_used : ℕ
  pub tool_call_budget : ℕ
  pub tool_calls_used : ℕ

pub data ReasoningEffort : Type 0 where
  none low medium high x_high : ReasoningEffort

unfoldable pub max_agents : ReasoningEffort → ℕ
max_agents none = 0
max_agents low = 4
max_agents medium = 16
max_agents high = 32
max_agents x_high = 64

unfoldable pub is_direct : ReasoningEffort → Bool
is_direct none = true
is_direct low = false
is_direct medium = false
is_direct high = false
is_direct x_high = false
