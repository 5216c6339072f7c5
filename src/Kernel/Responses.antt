-- ===== src/Kernel/Responses.antt =====
-- `apply_provider_response` and `apply_spawn_plan_response` of crates/agent-kernel/src/lib.rs: what
-- the kernel does with an agent's answer.
pub mod Limits
pub mod Workers
use miya_api.Prelude.{
  ℕ, ◌-◌, ltb, Bool, true, false, not, String, Option, none, some, List, [], ◌∷◌, ◌++◌, length,
  take, is_empty, unwrap_or, saturating_add, usize_max, Result, ok, err, Method, modify, fail, pure,
  continue, ◌>>=◌, ◌>>◌, if◌then◌else◌,
}
use miya_api.Protocol.Ids.{IsolationKey}
use miya_api.Protocol.Tasks.{SubtaskSpec, SpawnPlan, TaskGraph, Capability, contains}
use miya_api.Protocol.Artifacts.{AgentArtifact, ToolCallRecord}
use miya_api.Provider.{ProviderResponse}
use miya_api.Kernel.Error.{KernelError, budget_exceeded}
use miya_api.Kernel.ArtifactStore
use miya_api.Kernel.ArtifactStore.{ArtifactStore}
use miya_api.Kernel.ToolLedger.{ToolLedger, record_call, call_count}
use miya_api.Kernel.Policy.{KernelPolicy}
use miya_api.Kernel.SpawnValidator.{agent_count, validate_and_apply}

-- What the kernel mutates while it applies responses.
pub record Working : Type 0 where
  pub store : ArtifactStore
  pub ledger : ToolLedger
  pub graph : TaskGraph
  pub text_artifacts : List AgentArtifact

unfoldable pub record_calls : ToolLedger → List ToolCallRecord → ToolLedger
record_calls l [] = l
record_calls l (call ∷ rest) = record_calls (record_call l call) rest

abbrev pub with_children : SpawnPlan → List SubtaskSpec → SpawnPlan
with_children plan cs = record plan { children = cs }

-- `store.insert(artifact.clone()); text_artifacts.push(artifact)`
unfoldable pub keep_text : AgentArtifact → Method Working KernelError (Unit {0})
keep_text a w = (
  ok tt,
  record w {
    store = ArtifactStore.insert w.store a;
    text_artifacts = w.text_artifacts ++ (a ∷ []);
  },
)

unfoldable pub keep : AgentArtifact → Method Working KernelError (Unit {0})
keep a w = (ok tt, record w { store = ArtifactStore.insert w.store a })

-- A method of the task graph alone.
abbrev on_graph :
    Working → Result KernelError (Unit {0}) × TaskGraph → Result KernelError (Unit {0}) × Working
on_graph w (r, g) = (r, record w { graph = g })

-- `plan_text` is `serde_json::to_string` of the plan's JSON object.
module _ (plan_text : SpawnPlan → Option String) (policy : KernelPolicy)
    (scope : IsolationKey) where
  -- The plan is cut to the agents that the request has left; an empty rest is no plan.
  unfoldable pub apply_plan : SpawnPlan → Method Working KernelError (Unit {0})
  apply_plan plan w =
      let remaining = policy.limits.max_agents_per_request - agent_count w.graph in
      let cut = with_children plan (take remaining plan.children) in
      if is_empty cut.children
      then (ok tt, w)
      else on_graph w (validate_and_apply policy scope w.store cut w.graph)

  unfoldable pub apply_artifact :
      SubtaskSpec → AgentArtifact → Method Working KernelError (Unit {0})
  unfolding apply_plan keep_text keep
  apply_artifact task (AgentArtifact.spawn_plan i s plan) w =
      if not (contains task.allowed_capabilities Capability.spawn)
      then keep_text
          (AgentArtifact.text i s
            (unwrap_or (plan_text plan) "worker returned a disallowed spawn plan"))
          w
      else apply_plan plan w
  apply_artifact task (AgentArtifact.text i s t) w = keep_text (AgentArtifact.text i s t) w
  apply_artifact task (AgentArtifact.media m) w = keep (AgentArtifact.media m) w
  apply_artifact task (AgentArtifact.tool_call c) w = keep (AgentArtifact.tool_call c) w
  apply_artifact task (AgentArtifact.tool_result r) w = keep (AgentArtifact.tool_result r) w
  apply_artifact task (AgentArtifact.verification i s r) w =
      keep (AgentArtifact.verification i s r) w

  unfoldable pub apply_artifacts :
      SubtaskSpec → List AgentArtifact → Method Working KernelError (Unit {0})
  unfolding apply_artifact
  apply_artifacts task [] w = (ok tt, w)
  apply_artifacts task (a ∷ rest) w =
      continue (apply_artifact task a w) (λ _ w'. apply_artifacts task rest w')

  unfoldable pub apply_provider_response :
      SubtaskSpec → ProviderResponse → Method Working KernelError (Unit {0})
  unfolding apply_artifacts record_calls
  apply_provider_response task response w =
      if ltb policy.limits.max_total_tool_calls
        (saturating_add usize_max (call_count w.ledger) (length response.tool_calls))
      then (err budget_exceeded, w)
      else apply_artifacts task response.artifacts
          (record w { ledger = record_calls w.ledger response.tool_calls })

-- The spawn plans among the artifacts; the others go to the store.
unfoldable pub plans_of : List AgentArtifact → List SpawnPlan
plans_of [] = []
plans_of (AgentArtifact.spawn_plan i s plan ∷ rest) = plan ∷ plans_of rest
plans_of (a ∷ rest) = plans_of rest

unfoldable pub store_others : ArtifactStore → List AgentArtifact → ArtifactStore
store_others store [] = store
store_others store (AgentArtifact.spawn_plan i s plan ∷ rest) = store_others store rest
store_others store (a ∷ rest) = store_others (ArtifactStore.insert store a) rest

unfoldable pub apply_plans :
    KernelPolicy
    → IsolationKey
    → ArtifactStore
    → List SpawnPlan
    → Method TaskGraph KernelError (Unit {0})
apply_plans policy scope store [] g = (ok tt, g)
apply_plans policy scope store (plan ∷ rest) g =
    continue (validate_and_apply policy scope store plan g)
      (λ _ g'. apply_plans policy scope store rest g')

-- The answer says whether the response held a plan.
abbrev pub answer_saw :
    Bool → Working → Result KernelError (Unit {0}) × TaskGraph → Result KernelError Bool × Working
answer_saw saw w (ok _, g) = (ok saw, record w { graph = g })
answer_saw saw w (err e, g) = (err e, record w { graph = g })

unfoldable pub apply_spawn_plan_response :
    KernelPolicy → IsolationKey → ProviderResponse → Method Working KernelError Bool
unfolding plans_of store_others apply_plans
apply_spawn_plan_response policy scope response w =
    let stored = store_others w.store response.artifacts in
    answer_saw (not (is_empty (plans_of response.artifacts))) (record w { store = stored })
      (apply_plans policy scope stored (plans_of response.artifacts) w.graph)
