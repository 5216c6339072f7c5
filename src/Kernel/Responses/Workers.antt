-- ===== src/Kernel/Responses/Workers.antt =====
-- Agents without the spawn capability.
use miya_api.Prelude.{
  ◌≡◌, refl, true, false, String, Option, List, [], ◌∷◌, length, ok, err, arith, ltb,
  saturating_add, usize_max, continue, Result, if◌then◌else◌,
}
use miya_api.Protocol.Ids.{IsolationKey}
use miya_api.Protocol.Tasks.{SubtaskSpec, SpawnPlan, Capability, contains}
use miya_api.Protocol.Artifacts.{AgentArtifact}
use miya_api.Provider.{ProviderResponse}
use miya_api.Kernel.Error.{KernelError, budget_exceeded}
use miya_api.Kernel.ToolLedger.{call_count}
use miya_api.Kernel.Policy.{KernelPolicy}
use miya_api.Kernel.Responses.{
  Working, apply_artifact, apply_artifacts, apply_provider_response, record_calls,
}

module _ (plan_text : SpawnPlan → Option String) (policy : KernelPolicy) (scope : IsolationKey)
    (task : SubtaskSpec)
    (worker : contains task.allowed_capabilities Capability.spawn ≡ false) where
  apply_artifact_worker :
      (a : AgentArtifact) (w : Working)
      → ((apply_artifact plan_text policy scope task a w).0 ≡ ok tt)
        × ((apply_artifact plan_text policy scope task a w).1.graph ≡ w.graph)
        × ((apply_artifact plan_text policy scope task a w).1.ledger ≡ w.ledger)
  unfolding apply_artifact
  apply_artifact_worker (AgentArtifact.spawn_plan i s plan) w =
      rw (worker, apply_artifact) (refl, refl, refl)
  apply_artifact_worker _ w = (refl, refl, refl)

  apply_artifacts_worker :
      (artifacts : List AgentArtifact) (w : Working)
      → ((apply_artifacts plan_text policy scope task artifacts w).0 ≡ ok tt)
        × ((apply_artifacts plan_text policy scope task artifacts w).1.graph ≡ w.graph)
        × ((apply_artifacts plan_text policy scope task artifacts w).1.ledger ≡ w.ledger)
  unfolding apply_artifacts
  apply_artifacts_worker [] w = (refl, refl, refl)
  apply_artifacts_worker (a ∷ rest) w =
      rest_of (apply_artifact plan_text policy scope task a w) (apply_artifact_worker a w)
        (apply_artifacts_worker rest)
    where
      rest_of :
          (x : Result KernelError (Unit {0}) × Working)
          → (x.0 ≡ ok tt) × (x.1.graph ≡ w.graph) × (x.1.ledger ≡ w.ledger)
          → ((v : Working)
              → ((apply_artifacts plan_text policy scope task rest v).0 ≡ ok tt)
                × ((apply_artifacts plan_text policy scope task rest v).1.graph ≡ v.graph)
                × ((apply_artifacts plan_text policy scope task rest v).1.ledger ≡ v.ledger))
          → ((continue x (λ _ w'. apply_artifacts plan_text policy scope task rest w')).0 ≡ ok tt)
            × ((continue x (λ _ w'. apply_artifacts plan_text policy scope task rest w')).1.graph
                ≡ w.graph)
            × ((continue x (λ _ w'. apply_artifacts plan_text policy scope task rest w')).1.ledger
                ≡ w.ledger)
      rest_of (ok u, v) h ih = ground (arith, ih v)
      rest_of (err e, v) h ih = cc

  -- An agent that may not spawn leaves the task graph as it was, a spawn plan in its answer
  -- included. Its answer is refused only for the tool-call budget, and then writes nothing;
  -- otherwise its tool calls are recorded.
  pub apply_provider_response_worker :
      (response : ProviderResponse) (w : Working)
      → let over =
          ltb policy.limits.max_total_tool_calls
            (saturating_add usize_max (call_count w.ledger) (length response.tool_calls)) in
        let after = apply_provider_response plan_text policy scope task response w in
        (after.1.graph ≡ w.graph)
        × (after.0 ≡ (if over then err budget_exceeded else ok tt))
        × (after.1.ledger ≡ (if over then w.ledger else record_calls w.ledger response.tool_calls))
        × (over ≡ true → after.1 ≡ w)
  unfolding apply_provider_response
  apply_provider_response_worker response w = ground (
    arith,
    apply_artifacts_worker response.artifacts
        (record w { ledger = record_calls w.ledger response.tool_calls }),
  )
