-- ===== src/Kernel/Policy/Bounds.antt =====
-- The limits that a request's policy ends up with.
use miya_api.Prelude.{◌≤◌, ◌≡◌, arith, min}
use miya_api.Protocol.Limits.{ReasoningEffort, max_agents}
use miya_api.Protocol.Request.{NormalizedRequest}
use miya_api.Kernel.Policy.{KernelPolicy, for_request}

pub max_agents-le : (e : ReasoningEffort) → max_agents e ≤ 64
unfolding max_agents
max_agents-le ReasoningEffort.none = omega arith
max_agents-le _ = omega arith

-- The policy of a request allows the number of agents of its reasoning effort, which is 64 at most,
-- keeps the limits of tool calls and spawn depth of the deployment, and has at most that number of
-- agents in flight, and at least one unless the effort allows none, whatever the deployment and the
-- request's metadata ask for.
pub for_request_bounds :
    (p : KernelPolicy) (r : NormalizedRequest)
    → ((for_request p r).limits.max_agents_per_request ≡ max_agents r.reasoning_effort)
      × ((for_request p r).limits.max_agents_per_request ≤ 64)
      × ((for_request p r).limits.max_parallel_agents ≤ max_agents r.reasoning_effort)
      × (min 1 (max_agents r.reasoning_effort) ≤ (for_request p r).limits.max_parallel_agents)
      × ((for_request p r).limits.max_total_tool_calls ≡ p.limits.max_total_tool_calls)
      × ((for_request p r).limits.max_spawn_depth ≡ p.limits.max_spawn_depth)
unfolding for_request
for_request_bounds p r = ground (arith, max_agents-le r.reasoning_effort)
