-- ===== src/Tests/Ledger.antt =====
-- The artifact store, the tool ledger and the policy of a request.
use miya_api.Prelude.{
  ◌≡◌, ◌≤◌, refl, ok, [], ◌∷◌, ◌=?◌, min, if◌then◌else◌, pair_ord, cmp_pair, text_ord, parse_u64,
  trim,
}
use miya_api.Protocol.Ids.{key_ord, cmp_key}
use miya_api.Protocol.Json.{Value, Fields}
use miya_api.BTreeMap
use miya_api.Protocol.Limits.{ReasoningEffort, max_agents}
use miya_api.Kernel.ToolLedger.{record_result, unresolved_calls}
use miya_api.Kernel.ToolLedger.Resolution.{without, unresolved_calls-record_result}
use miya_api.Kernel.Policy.{for_request, metadata_u16}
use miya_api.Kernel.Policy.Bounds.{for_request_bounds}
use miya_api.Tests.Samples.{here, ledger, call, result, policy, request}

resolved_ok : (record_result (result "c1") ledger).0 ≡ ok tt
unfolding record_result BTreeMap.get cmp_pair cmp_key
resolved_ok = refl

unresolved_calls-record_result_example :
    unresolved_calls (record_result (result "c1") ledger).1 here ≡ (
      if (result "c1").scope =? here
      then without "c1" (unresolved_calls ledger here)
      else unresolved_calls ledger here)
unresolved_calls-record_result_example =
    unresolved_calls-record_result ledger (result "c1") here (refl, (refl, tt)) resolved_ok

unresolved_left : unresolved_calls (record_result (result "c1") ledger).1 here ≡ call "c2" ∷ []
unfolding record_result unresolved_calls BTreeMap.get BTreeMap.insert BTreeMap.adjust cmp_pair
    cmp_key
unresolved_left = refl

-- a request that asks for two hundred agents in flight, under `agent.parallelism`
abbrev eager : Value
eager = Value.object (
    Fields.field "agent"
      (Value.object (Fields.field "parallelism" (Value.string " 200 ") Fields.end)) Fields.end)

for_request_bounds_example :
    ((for_request policy (request ReasoningEffort.low eager)).limits.max_agents_per_request
      ≡ max_agents ReasoningEffort.low)
    × ((for_request policy (request ReasoningEffort.low eager)).limits.max_agents_per_request ≤ 64)
    × ((for_request policy (request ReasoningEffort.low eager)).limits.max_parallel_agents
        ≤ max_agents ReasoningEffort.low)
    × (min 1 (max_agents ReasoningEffort.low)
        ≤ (for_request policy (request ReasoningEffort.low eager)).limits.max_parallel_agents)
    × ((for_request policy (request ReasoningEffort.low eager)).limits.max_total_tool_calls
        ≡ policy.limits.max_total_tool_calls)
    × ((for_request policy (request ReasoningEffort.low eager)).limits.max_spawn_depth
        ≡ policy.limits.max_spawn_depth)
for_request_bounds_example = for_request_bounds policy (request ReasoningEffort.low eager)

four_in_flight :
    (for_request policy (request ReasoningEffort.low eager)).limits.max_parallel_agents ≡ 4
unfolding for_request metadata_u16 max_agents parse_u64 trim
four_in_flight = refl
