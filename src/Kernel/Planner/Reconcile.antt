-- ===== src/Kernel/Planner/Reconcile.antt =====
-- Filling a plan up to the configured number of children.
use mathlib.Core.List.{map-append, append_assoc}
use native.Mathlib.Nat.{mod-lt}
use miya_api.Prelude.{
  ℕ, zero, suc, ◌+◌, ◌-◌, ◌%◌, ◌≤◌, ◌<◌, ◌≡◌, refl, sym, ap, ◌∙◌, subst, some, List, [], ◌∷◌, ◌++◌,
  length, get_elem?, length-append, length-map, arith, u16_max, usize_max, saturating_add, inl, inr,
  ◌⊎◌, ◌⊎◌,
}
use miya_api.Protocol.Ids.{TaskId}
use miya_api.Protocol.Tasks.{SubtaskSpec, SpawnPlan}
use miya_api.Protocol.Artifacts.{AgentArtifact}
use miya_api.Provider.{ProviderResponse}
use miya_api.Kernel.Policy.{KernelPolicy}
use miya_api.Kernel.Responses.{plans_of}
use miya_api.Kernel.SpawnValidator.Agents.{AllChildren}
use miya_api.Kernel.Planner.{
  planner_coverage, children_of, ids_of, candidate, fresh_id, crosscheck, crosschecks,
  extend_first_plan, reconcile_under_target_orchestration_plan,
}
use miya_api.Kernel.Planner.Coverage.{child_count-planner_coverage}
use miya_api.Kernel.Planner.FreshIds.{fresh_id_total}
use miya_api.Kernel.Planner.Distinct.{DistinctIds, FreshIn, DistinctIds-middle}

get_elem?_total {ℓ} :
    {A : Type ℓ} (xs : List A) (i : ℕ) → i < length xs → (a : A) × (get_elem? xs i ≡ some a)
get_elem?_total [] i h = absurd (omega arith)
get_elem?_total (x ∷ xs) zero h = (x, refl)
get_elem?_total (x ∷ xs) (suc i) h = get_elem?_total xs i (omega arith)

-- What the added children have in common.
abbrev Added : List TaskId → ℕ → List SubtaskSpec → Type 0
Added ids count more = (length more ≡ count) × FreshIn ids (ids_of more) × AllChildren more

crosschecks_step :
    (templates : List SubtaskSpec) (parent : TaskId) (current left offset : ℕ) (ids : List TaskId)
    (template : SubtaskSpec) (t : TaskId) (more : List SubtaskSpec)
    → get_elem? templates (offset % length templates) ≡ some template
    → fresh_id
        (length ids + 1)
        ids
        template.task_id
        (saturating_add usize_max (saturating_add usize_max current offset) 1)
      ≡ some t
    → crosschecks templates parent current left (offset + 1) (t ∷ ids) ≡ some more
    → crosschecks templates parent current (suc left) offset ids
      ≡ some (crosscheck parent t template ∷ more)
unfolding crosschecks
crosschecks_step templates parent current left offset ids template t more at found rest =
    rw (at, crosschecks) (rw (found, crosschecks) (rw (rest, crosschecks) refl))

-- Enough ids are tried: every round finds its template and a free id.
crosschecks_total :
    (templates : List SubtaskSpec) (parent : TaskId) (current left offset : ℕ) (ids : List TaskId)
    → 0 < length templates
    → current + offset + left + length ids + left + 2 ≤ usize_max
    → (more : List SubtaskSpec) × (crosschecks templates parent current left offset ids ≡ some more)
      × Added ids left more
unfolding crosschecks crosscheck
crosschecks_total templates parent current zero offset ids some_template room =
    ([], refl, (refl, tt, tt))
crosschecks_total templates parent current (suc left) offset ids some_template room =
    let (template, at) =
      get_elem?_total templates (offset % length templates) (mod-lt offset some_template) in
    let (m, _, found, free) =
      fresh_id_total (length ids + 1) ids template.task_id
        (saturating_add usize_max (saturating_add usize_max current offset) 1) (omega arith)
        (omega arith) in
    let t = candidate template.task_id m in
    let (more, rest, added) =
      crosschecks_total templates parent current left (offset + 1) (t ∷ ids) some_template
        (omega arith) in
    (
      crosscheck parent t template ∷ more,
      crosschecks_step templates parent current left offset ids template t more at found rest,
      (ap suc added.0, (free, added.1), (refl, added.2)),
    )

-- Where the first plan of a response starts and ends among the children of all plans.
extend_first_plan_split :
    (more : List SubtaskSpec) (artifacts : List AgentArtifact) (plan : SpawnPlan)
    (plans : List SpawnPlan)
    → plans_of artifacts ≡ plan ∷ plans
    → (before after : List SubtaskSpec) × (children_of artifacts ≡ before ++ after)
      × (children_of (extend_first_plan more artifacts) ≡ before ++ (more ++ after))
unfolding plans_of children_of extend_first_plan
extend_first_plan_split more [] plan plans h = absurd (ground arith)
extend_first_plan_split more (AgentArtifact.spawn_plan i s p ∷ rest) plan plans h =
    (p.children, children_of rest, refl, append_assoc p.children more (children_of rest))
extend_first_plan_split more (AgentArtifact.text _ _ _ ∷ rest) plan plans h =
    extend_first_plan_split more rest plan plans h
extend_first_plan_split more (AgentArtifact.media _ ∷ rest) plan plans h =
    extend_first_plan_split more rest plan plans h
extend_first_plan_split more (AgentArtifact.tool_call _ ∷ rest) plan plans h =
    extend_first_plan_split more rest plan plans h
extend_first_plan_split more (AgentArtifact.tool_result _ ∷ rest) plan plans h =
    extend_first_plan_split more rest plan plans h
extend_first_plan_split more (AgentArtifact.verification _ _ _ ∷ rest) plan plans h =
    extend_first_plan_split more rest plan plans h

-- A response with children has a plan.
plans_of_children :
    (artifacts : List AgentArtifact)
    → 0 < length (children_of artifacts)
    → (plan : SpawnPlan) × (plans : List SpawnPlan) × (plans_of artifacts ≡ plan ∷ plans)
unfolding plans_of children_of
plans_of_children [] h = absurd (omega arith)
plans_of_children (AgentArtifact.spawn_plan i s p ∷ rest) h = (p, plans_of rest, refl)
plans_of_children (AgentArtifact.text _ _ _ ∷ rest) h = plans_of_children rest h
plans_of_children (AgentArtifact.media _ ∷ rest) h = plans_of_children rest h
plans_of_children (AgentArtifact.tool_call _ ∷ rest) h = plans_of_children rest h
plans_of_children (AgentArtifact.tool_result _ ∷ rest) h = plans_of_children rest h
plans_of_children (AgentArtifact.verification _ _ _ ∷ rest) h = plans_of_children rest h

reconcile_step :
    (r : ProviderResponse) (policy : KernelPolicy) (plan : SpawnPlan) (plans : List SpawnPlan)
    (more : List SubtaskSpec)
    → 0 < (planner_coverage r).child_count
    → (planner_coverage r).child_count < policy.limits.max_agents_per_request
    → 0 < length (children_of r.artifacts)
    → plans_of r.artifacts ≡ plan ∷ plans
    → crosschecks
        (children_of r.artifacts)
        plan.parent_task_id
        (planner_coverage r).child_count
        (policy.limits.max_agents_per_request - (planner_coverage r).child_count)
        0
        (ids_of (children_of r.artifacts))
      ≡ some more
    → reconcile_under_target_orchestration_plan r policy
      ≡ some (
        record r { artifacts = extend_first_plan more r.artifacts },
        policy.limits.max_agents_per_request - (planner_coverage r).child_count,
      )
unfolding reconcile_under_target_orchestration_plan
reconcile_step r policy plan plans more some_child under templates first found = grind arith

-- The ids of a list with `more` in its middle.
ids_of-middle :
    (before more after : List SubtaskSpec)
    → ids_of (before ++ (more ++ after)) ≡ ids_of before ++ (ids_of more ++ ids_of after)
ids_of-middle before more after =
    map-append (λ (c : SubtaskSpec). c.task_id) before (more ++ after)
    ∙ ap (◌++◌ (ids_of before)) (map-append (λ (c : SubtaskSpec). c.task_id) more after)

module _ (before more after : List SubtaskSpec) (ids : List TaskId) where
  middle-DistinctIds :
      ids ≡ ids_of (before ++ after)
      → FreshIn ids (ids_of more)
      → DistinctIds ids
      → DistinctIds (ids_of (before ++ (more ++ after)))
  middle-DistinctIds at fresh distinct =
      let parts = map-append (λ (c : SubtaskSpec). c.task_id) before after in
      subst DistinctIds (sym (ids_of-middle before more after)) (
        DistinctIds-middle (ids_of before) (ids_of more) (ids_of after)
          (subst DistinctIds (at ∙ parts) distinct)
          (subst (λ l. FreshIn l (ids_of more)) (at ∙ parts) fresh))

module _ (r : ProviderResponse) (policy : KernelPolicy) where
  abbrev current : ℕ
  current = (planner_coverage r).child_count

  abbrev target : ℕ
  target = policy.limits.max_agents_per_request

  -- What a reconciled response has: the configured number of children, and different ids if the
  -- response had.
  abbrev Reconciled : ProviderResponse → Type 0
  Reconciled r' =
      ((planner_coverage r').child_count ≡ policy.limits.max_agents_per_request)
      × (DistinctIds (ids_of (children_of r.artifacts))
          → DistinctIds (ids_of (children_of r'.artifacts)))

  extended-Reconciled :
      (plan : SpawnPlan) (plans : List SpawnPlan) (more : List SubtaskSpec)
      → plans_of r.artifacts ≡ plan ∷ plans
      → current < target
      → target ≤ u16_max
      → Added (ids_of (children_of r.artifacts)) (target - current) more
      → Reconciled (record r { artifacts = extend_first_plan more r.artifacts })
  extended-Reconciled plan plans more first under small added =
      let (before, after, old, new) = extend_first_plan_split more r.artifacts plan plans first in
      (
        omega (
          arith,
          child_count-planner_coverage r,
          child_count-planner_coverage
              (record r { artifacts = extend_first_plan more r.artifacts }),
          ap length old,
          ap length new,
          length-append before after,
          length-append before (more ++ after),
          length-append more after,
          added.0,
        ),
        λ distinct.
            subst (λ l. DistinctIds (ids_of l)) (sym new)
              (middle-DistinctIds before more after (ids_of (children_of r.artifacts))
                (ap ids_of old) added.1 distinct),
      )

  -- The response with the missing children, which the search for free ids finds.
  abbrev Filled : Type 0
  Filled =
      (r' : ProviderResponse) × (reconcile_under_target_orchestration_plan r policy
        ≡ some (r', target - current))
      × Reconciled r'

  reconcile_parts : 0 < current → current < target → target ≤ u16_max → Filled
  reconcile_parts some_child under small =
      let size : current ≡ length (children_of r.artifacts) =
        omega (arith, child_count-planner_coverage r) in
      let (plan, plans, first) = plans_of_children r.artifacts (omega arith) in
      let (more, found, added) =
        crosschecks_total (children_of r.artifacts) plan.parent_task_id current (target - current) 0
          (ids_of (children_of r.artifacts)) (omega arith)
          (omega (arith, length-map (λ (c : SubtaskSpec). c.task_id) (children_of r.artifacts))) in
      (
        record r { artifacts = extend_first_plan more r.artifacts },
        reconcile_step r policy plan plans more some_child under (omega arith) first found,
        extended-Reconciled plan plans more first under small added,
      )

  -- A plan with some children, but fewer than configured, is filled up: the search for free ids
  -- ends, exactly the missing children are added, and the response then plans the configured number.
  pub reconcile_total :
      0 < (planner_coverage r).child_count
      → (planner_coverage r).child_count < policy.limits.max_agents_per_request
      → policy.limits.max_agents_per_request ≤ u16_max
      → (r' : ProviderResponse) × (reconcile_under_target_orchestration_plan r policy
          ≡ some (r', policy.limits.max_agents_per_request - (planner_coverage r).child_count))
        × ((planner_coverage r').child_count ≡ policy.limits.max_agents_per_request)
  reconcile_total some_child under small =
      let (r', filled, reconciled) = reconcile_parts some_child under small in
      (r', filled, reconciled.0)

  -- Where the task ids of a plan with some children, but fewer than configured, differ from one
  -- another, they still do when it is filled up.
  pub reconcile_distinct :
      0 < (planner_coverage r).child_count
      → (planner_coverage r).child_count < policy.limits.max_agents_per_request
      → policy.limits.max_agents_per_request ≤ u16_max
      → DistinctIds (ids_of (children_of r.artifacts))
      → (r' : ProviderResponse) × (reconcile_under_target_orchestration_plan r policy
          ≡ some (r', policy.limits.max_agents_per_request - (planner_coverage r).child_count))
        × DistinctIds (ids_of (children_of r'.artifacts))
  reconcile_distinct some_child under small distinct =
      let (r', filled, reconciled) = reconcile_parts some_child under small in
      (r', filled, reconciled.1 distinct)

  -- A plan with no child, or with enough of them, stays as it is.
  pub reconcile_idle :
      ((planner_coverage r).child_count ≡ 0)
        ⊎ (policy.limits.max_agents_per_request ≤ (planner_coverage r).child_count)
      → reconcile_under_target_orchestration_plan r policy ≡ some (r, 0)
  unfolding reconcile_under_target_orchestration_plan
  reconcile_idle (inl none_planned) = ground arith
  reconcile_idle (inr enough) = ground arith
