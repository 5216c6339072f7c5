-- ===== src/Tests/Spawning.antt =====
-- Spawn plans and the task graph.
use miya_api.Prelude.{
  ◌≤◌, ◌≡◌, ◌≢◌, ◌↔◌, refl, ok, some, [], ◌∷◌, All, arith, text_ord, text_eq, String, cmp_pair,
}
use miya_api.BTreeMap
use miya_api.Protocol.Tasks.{SpawnPlan}
use miya_api.Protocol.Ids.{cmp_key}
use miya_api.Kernel.ArtifactStore.{contains_ref}
use miya_api.Kernel.SpawnValidator.{agent_count, requested_agents, validate_and_apply}
use miya_api.Kernel.SpawnValidator.Admission.{Admissible, validate_and_apply_iff}
use miya_api.Kernel.SpawnValidator.Agents.{validate_and_apply_bound, validate_and_apply_keeps}
use miya_api.Tests.Samples.{here, child, root, graph, store, plan, policy}

abbrev two : SpawnPlan
two = plan (child "a" ∷ child "b" ∷ [])

-- two children with one id
abbrev doubled : SpawnPlan
doubled = plan (child "a" ∷ child "a" ∷ [])

validate_and_apply_iff_example : ((validate_and_apply policy here store two graph).0 ≡ ok tt) ↔ (
    (requested_agents graph two ≤ policy.limits.max_agents_per_request)
    × All (Admissible here store policy.limits.max_spawn_depth graph) two.children)
validate_and_apply_iff_example = validate_and_apply_iff policy here store two graph

two_admitted : (validate_and_apply policy here store two graph).0 ≡ ok tt
unfolding validate_and_apply BTreeMap.get contains_ref cmp_pair cmp_key
two_admitted = refl

no_agents : agent_count graph ≤ policy.limits.max_agents_per_request
unfolding agent_count
no_agents = omega arith

validate_and_apply_bound_example :
    agent_count (validate_and_apply policy here store two graph).1
    ≤ policy.limits.max_agents_per_request
validate_and_apply_bound_example =
    validate_and_apply_bound policy here store two graph (omega arith) no_agents

b_is_not_a : ◌≢◌ {A = String} "b" "a"
b_is_not_a = ground (arith, text_eq "b" "a")

root_stands : BTreeMap.get "root" graph.tasks ≡ some root
unfolding BTreeMap.get
root_stands = refl

validate_and_apply_keeps_example :
    BTreeMap.get "root" (validate_and_apply policy here store two graph).1.tasks ≡ some root
validate_and_apply_keeps_example =
    validate_and_apply_keeps policy here store two graph "root" root root_stands

doubled_admitted : (validate_and_apply policy here store doubled graph).0 ≡ ok tt
unfolding validate_and_apply BTreeMap.get contains_ref cmp_pair cmp_key
doubled_admitted = refl
