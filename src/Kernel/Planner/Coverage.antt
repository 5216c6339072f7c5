-- ===== src/Kernel/Planner/Coverage.antt =====
-- How many children a response plans, before and after the cut.
use miya_api.Prelude.{
  ℕ, ◌+◌, ◌-◌, ◌≤◌, ◌<◌, ◌≡◌, refl, min, true, false, List, [], ◌∷◌, length, take, length-take,
  length-append, saturating_add, usize_max, arith,
}
use miya_api.Protocol.Artifacts.{AgentArtifact}
use miya_api.Provider.{ProviderResponse}
use miya_api.Kernel.Policy.{KernelPolicy}
use miya_api.Kernel.Planner.{
  PlannerCoverage, cover, planner_coverage, cut_plans, children_of,
  normalize_over_target_orchestration_plans,
}

child_count-cover :
    (c : PlannerCoverage) (artifacts : List AgentArtifact)
    → c.child_count ≤ usize_max
    → (cover c artifacts).child_count
      ≡ min (c.child_count + length (children_of artifacts)) usize_max
unfolding cover children_of
child_count-cover c [] h = omega arith
child_count-cover c (AgentArtifact.spawn_plan i s plan ∷ rest) h = omega (
  arith,
  child_count-cover
      (record {
        saw_plan = true;
        child_count = saturating_add usize_max c.child_count (length plan.children);
      })
      rest (omega arith),
  length-append plan.children (children_of rest),
)
child_count-cover c (AgentArtifact.text _ _ _ ∷ rest) h = child_count-cover c rest h
child_count-cover c (AgentArtifact.media _ ∷ rest) h = child_count-cover c rest h
child_count-cover c (AgentArtifact.tool_call _ ∷ rest) h = child_count-cover c rest h
child_count-cover c (AgentArtifact.tool_result _ ∷ rest) h = child_count-cover c rest h
child_count-cover c (AgentArtifact.verification _ _ _ ∷ rest) h = child_count-cover c rest h

-- The coverage counts the children of all plans, up to the greatest `usize`.
pub child_count-planner_coverage :
    (r : ProviderResponse)
    → (planner_coverage r).child_count ≡ min (length (children_of r.artifacts)) usize_max
unfolding planner_coverage
child_count-planner_coverage r = omega (
  arith,
  child_count-cover (record { saw_plan = false; child_count = 0 }) r.artifacts (omega arith),
)

length-children_of-cut_plans :
    (n : ℕ) (artifacts : List AgentArtifact)
    → length (children_of (cut_plans n artifacts)) ≡ min (length (children_of artifacts)) n
unfolding cut_plans children_of
length-children_of-cut_plans n [] = omega arith
length-children_of-cut_plans n (AgentArtifact.spawn_plan i s plan ∷ rest) = omega (
  arith,
  length-append (take n plan.children)
      (children_of (cut_plans (n - length (take n plan.children)) rest)),
  length-append plan.children (children_of rest),
  length-take n plan.children,
  length-children_of-cut_plans (n - length (take n plan.children)) rest,
)
length-children_of-cut_plans n (AgentArtifact.text _ _ _ ∷ rest) =
    length-children_of-cut_plans n rest
length-children_of-cut_plans n (AgentArtifact.media _ ∷ rest) = length-children_of-cut_plans n rest
length-children_of-cut_plans n (AgentArtifact.tool_call _ ∷ rest) =
    length-children_of-cut_plans n rest
length-children_of-cut_plans n (AgentArtifact.tool_result _ ∷ rest) =
    length-children_of-cut_plans n rest
length-children_of-cut_plans n (AgentArtifact.verification _ _ _ ∷ rest) =
    length-children_of-cut_plans n rest

-- After the cut a response plans as many children as before, or the configured number if that is
-- less: no more, and no fewer than it must.
pub normalize-child_count :
    (r : ProviderResponse) (policy : KernelPolicy)
    → policy.limits.max_agents_per_request ≤ usize_max
    → (planner_coverage (normalize_over_target_orchestration_plans r policy)).child_count
      ≡ min (planner_coverage r).child_count policy.limits.max_agents_per_request
unfolding normalize_over_target_orchestration_plans
normalize-child_count r policy h = omega (
  arith,
  child_count-planner_coverage r,
  child_count-planner_coverage
      (record r { artifacts = cut_plans policy.limits.max_agents_per_request r.artifacts }),
  length-children_of-cut_plans policy.limits.max_agents_per_request r.artifacts,
)

-- A response with a child has a plan.
saw_plan-cover :
    (c : PlannerCoverage) (artifacts : List AgentArtifact)
    → (0 < c.child_count → c.saw_plan ≡ true)
    → 0 < (cover c artifacts).child_count
    → (cover c artifacts).saw_plan ≡ true
unfolding cover
saw_plan-cover c [] start h = start h
saw_plan-cover c (AgentArtifact.spawn_plan i s plan ∷ rest) start h =
    saw_plan-cover
      (record {
        saw_plan = true;
        child_count = saturating_add usize_max c.child_count (length plan.children);
      })
      rest (λ _. refl) h
saw_plan-cover c (AgentArtifact.text _ _ _ ∷ rest) start h = saw_plan-cover c rest start h
saw_plan-cover c (AgentArtifact.media _ ∷ rest) start h = saw_plan-cover c rest start h
saw_plan-cover c (AgentArtifact.tool_call _ ∷ rest) start h = saw_plan-cover c rest start h
saw_plan-cover c (AgentArtifact.tool_result _ ∷ rest) start h = saw_plan-cover c rest start h
saw_plan-cover c (AgentArtifact.verification _ _ _ ∷ rest) start h = saw_plan-cover c rest start h

pub saw_plan-planner_coverage :
    (r : ProviderResponse)
    → 0 < (planner_coverage r).child_count
    → (planner_coverage r).saw_plan ≡ true
unfolding planner_coverage
saw_plan-planner_coverage r h =
    saw_plan-cover (record { saw_plan = false; child_count = 0 }) r.artifacts
      (λ h'. absurd (omega arith)) h
