-- ===== src/Kernel/Policy.antt =====
-- `KernelPolicy` of crates/agent-kernel/src/lib.rs: the limits of a request.
pub mod Bounds
use miya_api.Prelude.{
  ℕ, ◌==◌, leb, Bool, true, false, String, Option, none, some, List, [], ◌∷◌, clamp, u16_max, trim,
  parse_u64, if◌then◌else◌,
}
use miya_api.Protocol.Json
use miya_api.Protocol.Json.{Value}
use miya_api.Protocol.Limits.{
  ExecutionLimits, default_execution_limits, ReasoningEffort, max_agents,
}
use miya_api.Protocol.Request.{NormalizedRequest}
use miya_api.Kernel.Error.{default_max_semantic_repair_attempts}

pub record SemanticVerificationPolicy : Type 0 where
  pub enabled : Bool
  pub max_repair_attempts : ℕ

pub record KernelPolicy : Type 0 where
  pub limits : ExecutionLimits
  pub semantic_verification : SemanticVerificationPolicy

abbrev pub default_policy : KernelPolicy
default_policy = record {
  limits = default_execution_limits;
  semantic_verification = record {
    enabled = false;
    max_repair_attempts = default_max_semantic_repair_attempts;
  };
}

unfoldable pub bounded_parallel_agents : ℕ → ℕ → ℕ
bounded_parallel_agents requested max_agents_per_request =
    if max_agents_per_request == 0 then 0 else clamp requested 1 max_agents_per_request

-- `u64` to `u16` by `try_into().ok()`
abbrev to_u16 : Option ℕ → Option ℕ
to_u16 none = none
to_u16 (some n) = if leb n u16_max then some n else none

-- The number that a metadata value stands for.
metadata_number : Value → Option ℕ
metadata_number (Value.number n) = some n
metadata_number (Value.string t) = parse_u64 (trim t)
metadata_number _ = none

-- `value = value.get(segment)?` along a path
follow : List String → Value → Option Value
follow [] v = some v
follow (segment ∷ path) v = elim (Json.get segment v) [ none ↦ none | some w ↦ follow path w ]

at_path : Value → List String → Option ℕ
unfolding metadata_number follow
at_path metadata path = elim (follow path metadata) [
  | none ↦ none
  | some v ↦ to_u16 (metadata_number v)
]

unfoldable pub metadata_u16 : Value → List (List String) → Option ℕ
unfolding at_path
metadata_u16 metadata [] = none
metadata_u16 metadata (path ∷ paths) = elim (at_path metadata path) [
  | none ↦ metadata_u16 metadata paths
  | some n ↦ some n
]

abbrev pub parallel_agents_paths : List (List String)
parallel_agents_paths =
    ("max_parallel_agents" ∷ [])
    ∷ ("parallel_agents" ∷ [])
    ∷ ("agent" ∷ "max_parallel_agents" ∷ [])
    ∷ ("agent" ∷ "parallel_agents" ∷ [])
    ∷ ("agent" ∷ "parallelism" ∷ [])
    ∷ ("orchestration" ∷ "max_parallel_agents" ∷ [])
    ∷ ("orchestration" ∷ "parallel_agents" ∷ [])
    ∷ []

-- The policy with another number of agents in flight.
abbrev with_parallel_agents : KernelPolicy → ℕ → KernelPolicy
with_parallel_agents p n = record p {
  limits = record (p.limits) {
    max_parallel_agents = bounded_parallel_agents n p.limits.max_agents_per_request;
  };
}

unfoldable pub with_reasoning_effort : KernelPolicy → ReasoningEffort → KernelPolicy
unfolding bounded_parallel_agents
with_reasoning_effort p effort = record p {
  limits = record (p.limits) {
    max_agents_per_request = max_agents effort;
    max_parallel_agents = bounded_parallel_agents p.limits.max_parallel_agents (max_agents effort);
  };
}

unfoldable pub with_metadata_overrides : KernelPolicy → Value → KernelPolicy
unfolding bounded_parallel_agents
with_metadata_overrides p metadata = elim (metadata_u16 metadata parallel_agents_paths) [
  | none ↦ p
  | some n ↦ with_parallel_agents p n
]

unfoldable pub for_request : KernelPolicy → NormalizedRequest → KernelPolicy
unfolding with_reasoning_effort with_metadata_overrides
for_request p request =
    with_metadata_overrides (with_reasoning_effort p request.reasoning_effort) request.metadata
