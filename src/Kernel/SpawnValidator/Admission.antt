-- ===== src/Kernel/SpawnValidator/Admission.antt =====
-- Which spawn plans are admitted.
use miya_api.Prelude.{
  ℕ, ◌≤◌, ◌≡◌, ◌≢◌, ◌↔◌, refl, true, none, List, [], ◌∷◌, All, =?_iff, ok, arith, text_ord,
}
use miya_api.BTreeMap
use miya_api.Protocol.Ids.{IsolationKey, key_ord}
use miya_api.Protocol.Tasks.{ArtifactRef, SubtaskSpec, SpawnPlan, TaskGraph}
use miya_api.Kernel.ArtifactStore.{ArtifactStore, contains_ref}
use miya_api.Kernel.Policy.{KernelPolicy}
use miya_api.Kernel.SpawnValidator.{
  requested_agents, check_refs, check_child, check_children, insert_tasks, validate_and_apply,
}

module _ (scope : IsolationKey) (store : ArtifactStore) where
  -- An artifact that a child may read: of the request's own scope, and in the store.
  abbrev pub Visible : ArtifactRef → Type 0
  Visible r = (r.scope ≡ scope) × (contains_ref store r ≡ true)

  abbrev pub Admissible : ℕ → TaskGraph → SubtaskSpec → Type 0
  Admissible max_depth g child =
      (child.spawn_depth ≤ max_depth)
      × (BTreeMap.get child.task_id g.tasks ≡ none)
      × All Visible child.input_artifact_refs

  check_refs_iff : (rs : List ArtifactRef) → (check_refs scope store rs ≡ ok tt) ↔ All Visible rs
  unfolding check_refs
  check_refs_iff [] = (λ _. tt, λ _. refl)
  check_refs_iff (r ∷ rs) =
      let ih = check_refs_iff rs in
      (
        λ h. ground (arith, =?_iff r.scope scope, ih.0),
        λ h. ground (arith, =?_iff r.scope scope, ih.1 h.1),
      )

  check_child_iff :
      (max_depth : ℕ) (g : TaskGraph) (child : SubtaskSpec)
      → (check_child scope store max_depth g child ≡ ok tt) ↔ Admissible max_depth g child
  unfolding check_child
  check_child_iff max_depth g child =
      let refs = check_refs_iff child.input_artifact_refs in
      (λ h. ground (arith, refs.0), λ h. ground (arith, refs.1 h.2))

  pub check_children_iff :
      (max_depth : ℕ) (g : TaskGraph) (children : List SubtaskSpec)
      → (check_children scope store max_depth g children ≡ ok tt)
        ↔ All (Admissible max_depth g) children
  unfolding check_children
  check_children_iff max_depth g [] = (λ _. tt, λ _. refl)
  check_children_iff max_depth g (child ∷ rest) =
      let ih = check_children_iff max_depth g rest in
      let first = check_child_iff max_depth g child in
      (λ h. ground (arith, first.0, ih.0), λ h. ground (arith, first.1 h.0, ih.1 h.1))

-- A plan is admitted exactly when the agents in the graph and those it asks for, counted up to
-- 65,535, stay within the request's limit, and each child keeps the depth limit, has a task id that
-- is not in the graph, and reads only artifacts that are in the store under the request's own scope.
pub validate_and_apply_iff :
    (policy : KernelPolicy) (scope : IsolationKey) (store : ArtifactStore) (plan : SpawnPlan)
    (g : TaskGraph)
    → ((validate_and_apply policy scope store plan g).0 ≡ ok tt) ↔ (
        (requested_agents g plan ≤ policy.limits.max_agents_per_request)
        × All (Admissible scope store policy.limits.max_spawn_depth g) plan.children)
unfolding validate_and_apply
validate_and_apply_iff policy scope store plan g =
    let children = check_children_iff scope store policy.limits.max_spawn_depth g plan.children in
    (λ h. ground (arith, children.0), λ h. ground (arith, children.1 h.1))

-- A plan that is refused leaves the graph as it was.
pub validate_and_apply-refused :
    (policy : KernelPolicy) (scope : IsolationKey) (store : ArtifactStore) (plan : SpawnPlan)
    (g : TaskGraph)
    → (validate_and_apply policy scope store plan g).0 ≢ ok tt
    → (validate_and_apply policy scope store plan g).1 ≡ g
unfolding validate_and_apply
validate_and_apply-refused policy scope store plan g h = ground arith

-- A plan that is admitted puts its children into the graph.
pub validate_and_apply-admitted :
    (policy : KernelPolicy) (scope : IsolationKey) (store : ArtifactStore) (plan : SpawnPlan)
    (g : TaskGraph)
    → (validate_and_apply policy scope store plan g).0 ≡ ok tt
    → (validate_and_apply policy scope store plan g).1 ≡ insert_tasks g plan.children
unfolding validate_and_apply
validate_and_apply-admitted policy scope store plan g h = ground arith
