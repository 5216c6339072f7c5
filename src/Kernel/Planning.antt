-- ===== src/Kernel/Planning.antt =====
-- The planning phase of `run_inner` in crates/agent-kernel/src/lib.rs: the planner is asked, asked
-- to repair its plan while the number of children is wrong, and the plan is filled up, rejected or
-- applied.
pub mod Calls
pub mod Exact
pub mod Outcomes
use Prim.Native.String.{◌++◌ as concat}
use miya_api.Prelude.{
  ℕ, zero, suc, ◌+◌, ltb, Bool, true, false, String, Option, none, some, List, [], ◌∷◌, Result, ok,
  err, Method, continue, decimal, unwrap_or, if◌then◌else◌,
}
use miya_api.Protocol.Ids.{TaskId}
use miya_api.Protocol.Limits.{ReasoningEffort, is_direct}
use miya_api.Protocol.Tasks.{SubtaskSpec, AgentRole, ArtifactKind, Capability}
use miya_api.Protocol.Artifacts.{VerificationIssue}
use miya_api.Protocol.Request.{NormalizedRequest, isolation_key}
use miya_api.Provider.{ProviderRequest, ProviderResponse}
use miya_api.Kernel.Error.{KernelError, provider_rejected, max_orchestration_repair_attempts}
use miya_api.Kernel.Policy.{KernelPolicy}
use miya_api.Kernel.Responses.{Working, apply_spawn_plan_response}
use miya_api.Kernel.Planner.{
  planner_coverage, normalize_over_target_orchestration_plans,
  reconcile_under_target_orchestration_plan, should_repair_orchestration_plan,
}
use miya_api.Kernel.Runner.{Run, ModelProvider, Prompts, ask, internal_request}

unfoldable pub should_use_model_orchestration : NormalizedRequest → KernelPolicy → Bool
unfolding is_direct
should_use_model_orchestration request policy =
    if is_direct request.reasoning_effort then false else ltb 1 policy.limits.max_agents_per_request

unfoldable pub orchestration_planner_task : TaskId → KernelPolicy → SubtaskSpec
orchestration_planner_task root_task_id policy = record {
  task_id = root_task_id;
  parent_task_id = none;
  spawn_depth = 0;
  role = AgentRole.leader;
  objective =
      concat "produce a bounded model-selected orchestration plan with exactly "
        (concat (decimal policy.limits.max_agents_per_request) " child agents");
  input_artifact_refs = [];
  expected_outputs = ArtifactKind.spawn_plan ∷ [];
  allowed_capabilities = Capability.text ∷ Capability.image ∷ Capability.spawn ∷ [];
  limits = record {
    max_tokens = policy.limits.max_tokens_per_agent;
    max_tool_calls = 0;
    timeout_ms = policy.limits.agent_timeout_ms;
  };
}

unfoldable pub orchestration_planner_repair_task : TaskId → KernelPolicy → SubtaskSpec
unfolding orchestration_planner_task
orchestration_planner_repair_task root_task_id policy =
    record (orchestration_planner_task root_task_id policy) {
      objective =
          concat "repair a bounded model-selected orchestration plan with exactly "
            (concat (decimal policy.limits.max_agents_per_request) " child agents");
    }

unfoldable pub reasoning_effort_name : ReasoningEffort → String
reasoning_effort_name ReasoningEffort.none = "none"
reasoning_effort_name ReasoningEffort.low = "low"
reasoning_effort_name ReasoningEffort.medium = "medium"
reasoning_effort_name ReasoningEffort.high = "high"
reasoning_effort_name ReasoningEffort.x_high = "xhigh"

abbrev pub plan_reconciled : ℕ → VerificationIssue
plan_reconciled added = record {
  code = "orchestration_plan_reconciled";
  message = concat "model remained below the configured child-agent count after " (
      concat (decimal max_orchestration_repair_attempts) (
        concat " repairs; added " (
          concat (decimal added)
            " bounded independent cross-check agent(s) from model-selected objectives")));
}

abbrev pub missing_plan : VerificationIssue
missing_plan = record {
  code = "missing_model_spawn_plan";
  message = "model orchestration did not return a valid structured spawn_plan";
}

-- A method of what the responses change, in a run.
abbrev pub on_working : {A : Type 0} → Method Working KernelError A → Method Run KernelError A
on_working m run = ((m run.working).0, record run { working = (m run.working).1 })

abbrev pub cut : KernelPolicy → ProviderResponse → ProviderResponse
cut policy r = normalize_over_target_orchestration_plans r policy

module _ (model : ModelProvider) (prompts : Prompts) (policy : KernelPolicy)
    (request : NormalizedRequest) where
  abbrev planner_request : SubtaskSpec → String → ProviderRequest
  planner_request task input =
      internal_request prompts policy request task input []
        (prompts.planner_provider_options request.provider_options policy)

  abbrev first_request : ProviderRequest
  first_request =
      planner_request (orchestration_planner_task "root" policy)
        (prompts.planner_input request policy)

  abbrev repair_request : ℕ → ProviderResponse → ProviderRequest
  repair_request attempt response =
      planner_request (orchestration_planner_repair_task "root" policy)
        (prompts.planner_repair_input request policy response attempt)

  -- The `while` loop; `attempt` counts from 1 and `left` is how many repairs are still allowed.
  unfoldable pub repair_plan : ℕ → ℕ → ProviderResponse → Method Run KernelError ProviderResponse
  repair_plan zero attempt response run = (ok response, run)
  repair_plan (suc left) attempt response run =
      if should_repair_orchestration_plan (planner_coverage response) policy
      then continue (ask model (cut policy) (repair_request attempt response) run)
          (repair_plan left (attempt + 1))
      else (ok response, run)

  pub rejection : ProviderResponse → KernelError
  unfolding reasoning_effort_name
  rejection response = provider_rejected (
      concat "model orchestration returned " (
        concat (decimal (planner_coverage response).child_count) (
          concat " child agent(s); reasoning effort " (
            concat (reasoning_effort_name request.reasoning_effort) (
              concat " requires exactly " (
                concat (decimal policy.limits.max_agents_per_request)
                  " child agent(s); refusing root-only fallback"))))))

  -- A plan that is still short is filled up; `reconcile_total` and `reconcile_idle` say that this
  -- has a result.
  unfoldable pub fill_plan : ProviderResponse → ProviderResponse × ℕ
  fill_plan response =
      if should_repair_orchestration_plan (planner_coverage response) policy
      then unwrap_or (reconcile_under_target_orchestration_plan response policy) (response, 0)
      else (response, 0)

  -- The plan to apply and the number of children that were added, or the refusal.
  unfoldable pub accept_plan : ProviderResponse × ℕ → Result KernelError (ProviderResponse × ℕ)
  unfolding rejection
  accept_plan (response, added) =
      if should_repair_orchestration_plan (planner_coverage response) policy
      then err (rejection response)
      else ok (response, added)

  -- The planner's answer after the repairs.
  unfoldable pub draft_plan : Method Run KernelError ProviderResponse
  unfolding repair_plan
  draft_plan run =
      continue (ask model (cut policy) first_request run)
        (repair_plan max_orchestration_repair_attempts 1)

  unfoldable pub choose_plan : Method Run KernelError (ProviderResponse × ℕ)
  unfolding draft_plan fill_plan accept_plan
  choose_plan run =
      continue (draft_plan run) (λ response run'. (accept_plan (fill_plan response), run'))

  -- The planning issue of the report, if any.
  unfoldable pub planning_issue : ℕ → Bool → Option VerificationIssue
  planning_issue added plan_seen =
      if plan_seen
      then (if ltb 0 added then some (plan_reconciled added) else none)
      else some missing_plan

  unfoldable pub orchestrate : Method Run KernelError (Option VerificationIssue)
  unfolding choose_plan planning_issue
  orchestrate run = continue (choose_plan run) (λ (response, added) run'.
      continue (on_working (apply_spawn_plan_response policy (isolation_key request) response) run')
        (λ plan_seen run''. (ok (planning_issue added plan_seen), run'')))
