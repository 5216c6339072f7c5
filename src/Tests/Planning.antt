-- ===== src/Tests/Planning.antt =====
-- Plans that are cut or filled up.
use mathlib.Core.Option
use miya_api.Prelude.{ℕ, ◌-◌, ◌≡◌, refl, some, [], ◌∷◌, arith, two_digits}
use miya_api.Provider.{ProviderResponse}
use miya_api.Kernel.Policy.{KernelPolicy}
use miya_api.Kernel.Planner.{
  planner_coverage, children_of, reconcile_under_target_orchestration_plan, ids_of,
}
use miya_api.Kernel.Planner.Reconcile.{reconcile_total}
use miya_api.Kernel.Planner.Distinct.{DistinctIds}
use miya_api.Tests.Samples.{child, planned, policy}

abbrev pub three_agents : KernelPolicy
three_agents = record policy { limits = record (policy.limits) { max_agents_per_request = 3 } }

abbrev four_planned : ProviderResponse
four_planned = planned (child "a" ∷ child "b" ∷ child "c" ∷ child "d" ∷ [])

-- one child, whose id is that of the first candidate of another
abbrev two_planned : ProviderResponse
two_planned = planned (child "a" ∷ child "a-independent-crosscheck-03" ∷ [])

counted : (planner_coverage two_planned).child_count ≡ 2
unfolding planner_coverage
counted = refl

reconcile_total_example :
    (r' : ProviderResponse) × (reconcile_under_target_orchestration_plan two_planned three_agents
      ≡ some (r', 3 - (planner_coverage two_planned).child_count))
    × ((planner_coverage r').child_count ≡ 3)
reconcile_total_example =
    reconcile_total two_planned three_agents (omega (arith, counted)) (omega (arith, counted))
      (omega arith)

distinct : DistinctIds (ids_of (children_of two_planned.artifacts))
unfolding children_of
distinct = (refl, (refl, tt))

-- the suffix 03 is taken, so the new child gets 04
filled :
    Option.map
      (λ (p : ProviderResponse × ℕ). ids_of (children_of p.0.artifacts))
      (reconcile_under_target_orchestration_plan two_planned three_agents)
    ≡ some ("a" ∷ "a-independent-crosscheck-03" ∷ "a-independent-crosscheck-04" ∷ [])
unfolding reconcile_under_target_orchestration_plan two_digits
filled = refl
