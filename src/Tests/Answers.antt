-- ===== src/Tests/Answers.antt =====
-- What the kernel does with the answers of its agents.
use miya_api.Prelude.{
  ◌≡◌, refl, true, false, String, Option, none, ok, err, [], ◌∷◌, length, arith, ltb,
  saturating_add, usize_max, if◌then◌else◌,
}
use miya_api.Protocol.Tasks.{SpawnPlan, Capability, contains}
use miya_api.Protocol.Artifacts.{AgentArtifact}
use miya_api.Provider.{ProviderResponse}
use miya_api.Kernel.Error.{budget_exceeded}
use miya_api.Kernel.ToolLedger.{call_count}
use miya_api.Kernel.SpawnValidator.{agent_count}
use miya_api.Kernel.Responses.{record_calls, apply_provider_response}
use miya_api.Kernel.Responses.Limits.{WithinLimits, apply_provider_response-WithinLimits}
use miya_api.Kernel.Responses.Workers.{apply_provider_response_worker}
use miya_api.Tests.Samples.{here, child, root, note, plan, policy, call, response, working}

abbrev no_text : SpawnPlan → Option String
no_text p = none

-- a tool call, a note and a plan of two children
abbrev answer : ProviderResponse
answer =
    response (note ∷ AgentArtifact.spawn_plan "p1" here (plan (child "a" ∷ child "b" ∷ [])) ∷ [])
      (call "c3" ∷ [])

working-WithinLimits : WithinLimits policy working
unfolding call_count agent_count
working-WithinLimits = omega arith

apply_provider_response-WithinLimits_example :
    WithinLimits policy (apply_provider_response no_text policy here root answer working).1
apply_provider_response-WithinLimits_example =
    apply_provider_response-WithinLimits no_text policy here (omega arith) root answer working
      working-WithinLimits (omega arith)

apply_provider_response_worker_example :
    let over =
      ltb policy.limits.max_total_tool_calls
        (saturating_add usize_max (call_count working.ledger) (length answer.tool_calls)) in
    let after = apply_provider_response no_text policy here (child "w") answer working in
    (after.1.graph ≡ working.graph)
    × (after.0 ≡ (if over then err budget_exceeded else ok tt))
    × (after.1.ledger
        ≡ (if over then working.ledger else record_calls working.ledger answer.tool_calls))
    × (over ≡ true → after.1 ≡ working)
apply_provider_response_worker_example =
    apply_provider_response_worker no_text policy here (child "w") cannot_spawn answer working
  where
    cannot_spawn : contains (child "w").allowed_capabilities Capability.spawn ≡ false
    cannot_spawn = unfold contains in refl
