-- ===== src/Kernel/Planner.antt =====
-- The spawn plans of the orchestration planner, in crates/agent-kernel/src/lib.rs: how many children
-- a response plans, and how a response is cut or filled up to the configured number.
pub mod Coverage
pub mod FreshIds
pub mod Distinct
pub mod Reconcile
use Prim.Native.String.{◌++◌ as concat}
use miya_api.Prelude.{
  ℕ, zero, suc, ◌+◌, ◌-◌, ◌%◌, ◌==◌, ltb, leb, Bool, true, false, not, ◌&&◌, ◌||◌, String, Option,
  none, some, List, [], ◌∷◌, ◌++◌, length, take, any, map, get_elem?, saturating_add, usize_max,
  text_ord, ◌=?◌, two_digits, if◌then◌else◌,
}
use miya_api.Protocol.Ids.{TaskId}
use miya_api.Protocol.Tasks.{SubtaskSpec, SpawnPlan}
use miya_api.Protocol.Artifacts.{AgentArtifact}
use miya_api.Provider.{ProviderResponse}
use miya_api.Kernel.Policy.{KernelPolicy}
use miya_api.Kernel.Responses.{with_children, plans_of}

pub record PlannerCoverage : Type 0 where
  pub saw_plan : Bool
  pub child_count : ℕ

unfoldable pub cover : PlannerCoverage → List AgentArtifact → PlannerCoverage
cover c [] = c
cover c (AgentArtifact.spawn_plan i s plan ∷ rest) =
    cover
      (record {
        saw_plan = true;
        child_count = saturating_add usize_max c.child_count (length plan.children);
      })
      rest
cover c (a ∷ rest) = cover c rest

unfoldable pub planner_coverage : ProviderResponse → PlannerCoverage
unfolding cover
planner_coverage r = cover (record { saw_plan = false; child_count = 0 }) r.artifacts

-- Each plan in turn is cut to what the plans before it leave.
unfoldable pub cut_plans : ℕ → List AgentArtifact → List AgentArtifact
cut_plans remaining [] = []
cut_plans remaining (AgentArtifact.spawn_plan i s plan ∷ rest) =
    let kept = take remaining plan.children in
    AgentArtifact.spawn_plan i s (with_children plan kept)
    ∷ cut_plans (remaining - length kept) rest
cut_plans remaining (a ∷ rest) = a ∷ cut_plans remaining rest

unfoldable pub normalize_over_target_orchestration_plans :
    ProviderResponse → KernelPolicy → ProviderResponse
unfolding cut_plans
normalize_over_target_orchestration_plans r policy = record r {
  artifacts = cut_plans policy.limits.max_agents_per_request r.artifacts;
}

-- The children of all plans of a response.
unfoldable pub children_of : List AgentArtifact → List SubtaskSpec
children_of [] = []
children_of (AgentArtifact.spawn_plan i s plan ∷ rest) = plan.children ++ children_of rest
children_of (a ∷ rest) = children_of rest

abbrev pub ids_of : List SubtaskSpec → List TaskId
ids_of = map (λ c. c.task_id)

abbrev pub has_id : TaskId → List TaskId → Bool
has_id t = any (λ u. u =? t)

unfoldable pub candidate : TaskId → ℕ → TaskId
candidate base suffix = concat base (concat "-independent-crosscheck-" (two_digits suffix))

-- The `loop` that raises the suffix until an id is free; `none` means that the fuel ran out.
unfoldable pub fresh_id : ℕ → List TaskId → TaskId → ℕ → Option TaskId
unfolding candidate
fresh_id zero ids base suffix = none
fresh_id (suc fuel) ids base suffix =
    let rest = fresh_id fuel ids base (saturating_add usize_max suffix 1) in
    if has_id (candidate base suffix) ids then rest else some (candidate base suffix)

-- A copy of the template under the new id, for the plan whose parent is given.
unfoldable pub crosscheck : TaskId → TaskId → SubtaskSpec → SubtaskSpec
crosscheck parent t template = record template {
  task_id = t;
  parent_task_id = some parent;
  objective = concat "Independently cross-check: " template.objective;
}

-- The new children, one for each offset from `offset` on; `ids` are the ids that are taken.
unfoldable pub crosschecks :
    List SubtaskSpec → TaskId → ℕ → ℕ → ℕ → List TaskId → Option (List SubtaskSpec)
unfolding fresh_id crosscheck
crosschecks templates parent current zero offset ids = some []
crosschecks templates parent current (suc left) offset ids =
    elim (get_elem? templates (offset % length templates)) [
      | none ↦ none
      | some template ↦
          elim (fresh_id (length ids + 1) ids template.task_id
            (saturating_add usize_max (saturating_add usize_max current offset) 1)) [
              | none ↦ none
              | some t ↦ elim (crosschecks templates parent current left (offset + 1) (t ∷ ids)) [
                | none ↦ none
                | some more ↦ some (crosscheck parent t template ∷ more)
              ]
            ]
    ]

-- The first plan with more children.
unfoldable pub extend_first_plan : List SubtaskSpec → List AgentArtifact → List AgentArtifact
extend_first_plan more [] = []
extend_first_plan more (AgentArtifact.spawn_plan i s plan ∷ rest) =
    AgentArtifact.spawn_plan i s (with_children plan (plan.children ++ more)) ∷ rest
extend_first_plan more (a ∷ rest) = a ∷ extend_first_plan more rest

abbrev extended : ProviderResponse → ℕ → Option (List SubtaskSpec) → Option (ProviderResponse × ℕ)
extended r missing none = none
extended r missing (some more) =
    some (record r { artifacts = extend_first_plan more r.artifacts }, missing)

-- The response and the number of children added.
unfoldable pub reconcile_under_target_orchestration_plan :
    ProviderResponse → KernelPolicy → Option (ProviderResponse × ℕ)
unfolding planner_coverage children_of crosschecks extend_first_plan plans_of
reconcile_under_target_orchestration_plan r policy =
    let target = policy.limits.max_agents_per_request in
    let current = (planner_coverage r).child_count in
    let templates = children_of r.artifacts in
    let filled : Option (ProviderResponse × ℕ) = elim (plans_of r.artifacts) [
      | [] ↦ some (r, 0)
      | destination ∷ _ ↦ extended r (target - current) (
          crosschecks templates destination.parent_task_id current (target - current) 0
            (ids_of templates))
    ] in
    if current == 0 || leb target current
    then some (r, 0)
    else (elim templates [ [] ↦ some (r, 0) | _ ∷ _ ↦ filled ])

unfoldable pub should_repair_orchestration_plan : PlannerCoverage → KernelPolicy → Bool
should_repair_orchestration_plan coverage policy =
    let target = policy.limits.max_agents_per_request in
    ltb 1 target && (not coverage.saw_plan || not (coverage.child_count == target))
