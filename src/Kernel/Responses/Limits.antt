-- ===== src/Kernel/Responses/Limits.antt =====
-- The limits of a request hold whatever the providers answer.
use miya_api.Prelude.{
  ◌-◌, ◌+◌, ◌≤◌, ◌<◌, ◌≡◌, refl, String, Option, List, [], ◌∷◌, length, take, is_empty, ok, err,
  arith, u16_max, usize_max, Bool-cases, inl, inr, ltb, saturating_add, continue_inv, not, Bool,
  Result,
}
use miya_api.Protocol.Ids.{IsolationKey}
use miya_api.Protocol.Tasks.{SubtaskSpec, SpawnPlan, TaskGraph}
use miya_api.Protocol.Artifacts.{AgentArtifact, ToolCallRecord}
use miya_api.Provider.{ProviderResponse}
use miya_api.Kernel.Error.{KernelError}
use miya_api.Kernel.ArtifactStore.{ArtifactStore}
use miya_api.Kernel.ToolLedger.{ToolLedger, record_call, call_count}
use miya_api.Kernel.ToolLedger.Resolution.{call_count-record_call-le}
use miya_api.Kernel.Policy.{KernelPolicy}
use miya_api.Kernel.SpawnValidator.{agent_count, validate_and_apply}
use miya_api.Kernel.SpawnValidator.Agents.{validate_and_apply_bound}
use miya_api.Kernel.Responses.{
  Working, record_calls, with_children, apply_plan, apply_artifact, apply_artifacts,
  apply_provider_response, apply_plans, apply_spawn_plan_response, answer_saw, plans_of,
  store_others,
}

pub record WithinLimits (policy : KernelPolicy) (w : Working) : Type 0 where
  pub calls : call_count w.ledger ≤ policy.limits.max_total_tool_calls
  pub agents : agent_count w.graph ≤ policy.limits.max_agents_per_request

call_count-record_calls-le :
    (l : ToolLedger) (cs : List ToolCallRecord)
    → call_count (record_calls l cs) ≤ call_count l + length cs
unfolding record_calls
call_count-record_calls-le l [] = omega arith
call_count-record_calls-le l (c ∷ cs) =
    omega (arith, call_count-record_calls-le (record_call l c) cs, call_count-record_call-le l c)

answer_saw-state :
    (saw : Bool) (w : Working) (x : Result KernelError (Unit {0}) × TaskGraph)
    → (answer_saw saw w x).1 ≡ record w { graph = x.1 }
answer_saw-state saw w (ok u, g) = refl
answer_saw-state saw w (err e, g) = refl

module _ (plan_text : SpawnPlan → Option String) (policy : KernelPolicy) (scope : IsolationKey)
    (small : policy.limits.max_agents_per_request < u16_max) where
  apply_plan-WithinLimits :
      (plan : SpawnPlan) (w : Working)
      → WithinLimits policy w
      → WithinLimits policy (apply_plan plan_text policy scope plan w).1
  unfolding apply_plan
  apply_plan-WithinLimits plan w h = ground (
    arith,
    validate_and_apply_bound policy scope w.store
        (with_children plan
          (take (policy.limits.max_agents_per_request - agent_count w.graph) plan.children))
        w.graph small h.agents,
  )

  apply_artifact-WithinLimits :
      (task : SubtaskSpec) (a : AgentArtifact) (w : Working)
      → WithinLimits policy w
      → WithinLimits policy (apply_artifact plan_text policy scope task a w).1
  unfolding apply_artifact
  apply_artifact-WithinLimits task (AgentArtifact.spawn_plan i s plan) w h =
      ground (arith, apply_plan-WithinLimits plan w h)
  apply_artifact-WithinLimits task _ w h = record { calls = h.calls; agents = h.agents }

  apply_artifacts-WithinLimits :
      (task : SubtaskSpec) (artifacts : List AgentArtifact) (w : Working)
      → WithinLimits policy w
      → WithinLimits policy (apply_artifacts plan_text policy scope task artifacts w).1
  unfolding apply_artifacts
  apply_artifacts-WithinLimits task [] w h = h
  apply_artifacts-WithinLimits task (a ∷ rest) w h =
      continue_inv (WithinLimits policy) (apply_artifact plan_text policy scope task a w)
        (λ _ w'. apply_artifacts plan_text policy scope task rest w')
        (apply_artifact-WithinLimits task a w h)
        (λ _ w' h'. apply_artifacts-WithinLimits task rest w' h')

  -- Whatever an agent answers, and whether its answer is accepted or not: the tool calls recorded
  -- stay within the request's budget, and the child agents within the request's limit, if that is
  -- below the greatest `u16`.
  pub apply_provider_response-WithinLimits :
      (task : SubtaskSpec) (response : ProviderResponse) (w : Working)
      → WithinLimits policy w
      → policy.limits.max_total_tool_calls < usize_max
      → WithinLimits policy (apply_provider_response plan_text policy scope task response w).1
  unfolding apply_provider_response
  apply_provider_response-WithinLimits task response w h budget =
      elim (Bool-cases (
        ltb policy.limits.max_total_tool_calls
          (saturating_add usize_max (call_count w.ledger) (length response.tool_calls)))) [
            | inl over ↦ rw (over, apply_provider_response) h
            | inr fits ↦
                rw (fits, apply_provider_response)
                  (apply_artifacts-WithinLimits task response.artifacts
                    (record w { ledger = record_calls w.ledger response.tool_calls })
                    (record {
                      calls =
                          ground (arith, call_count-record_calls-le w.ledger response.tool_calls);
                      agents = h.agents;
                    }))
          ]

  apply_plans_bound :
      (store : ArtifactStore) (plans : List SpawnPlan) (g : TaskGraph)
      → agent_count g ≤ policy.limits.max_agents_per_request
      → agent_count (apply_plans policy scope store plans g).1
        ≤ policy.limits.max_agents_per_request
  unfolding apply_plans
  apply_plans_bound store [] g h = h
  apply_plans_bound store (plan ∷ rest) g h =
      continue_inv (λ g'. agent_count g' ≤ policy.limits.max_agents_per_request)
        (validate_and_apply policy scope store plan g)
        (λ _ g'. apply_plans policy scope store rest g')
        (validate_and_apply_bound policy scope store plan g small h)
        (λ _ g' h'. apply_plans_bound store rest g' h')

  -- The planner's answer keeps both limits too, whether it is accepted or not.
  pub apply_spawn_plan_response-WithinLimits :
      (response : ProviderResponse) (w : Working)
      → WithinLimits policy w
      → WithinLimits policy (apply_spawn_plan_response policy scope response w).1
  unfolding apply_spawn_plan_response
  apply_spawn_plan_response-WithinLimits response w h =
      let stored = store_others w.store response.artifacts in
      let plans = plans_of response.artifacts in
      rw
        (answer_saw-state (not (is_empty plans)) (record w { store = stored })
          (apply_plans policy scope stored plans w.graph))
        (record { calls = h.calls; agents = apply_plans_bound stored plans w.graph h.agents })
