-- ===== src/Kernel/SpawnValidator.antt =====
-- `SpawnValidator::validate_and_apply` of crates/agent-kernel/src/lib.rs.
pub mod Admission
pub mod Agents
use miya_api.Prelude.{
  ℕ, ltb, min, Bool, Option, none, some, List, [], ◌∷◌, length, filter, is_some, text_ord, ◌=?◌,
  not, Result, ok, err, Method, saturating_add, usize_max, u16_max, if◌then◌else◌,
}
use miya_api.BTreeMap
use miya_api.BTreeMap.{BTreeMap, count_values}
use miya_api.Protocol.Ids.{IsolationKey, TaskId, key_ord}
use miya_api.Protocol.Limits.{ExecutionLimits}
use miya_api.Protocol.Tasks.{ArtifactRef, SubtaskSpec, SpawnPlan, TaskGraph, insert_task}
use miya_api.Kernel.Error.{
  KernelError, agent_limit_exceeded, spawn_depth_exceeded, duplicate_task, artifact_scope_mismatch,
  missing_artifact,
}
use miya_api.Kernel.ArtifactStore.{ArtifactStore, contains_ref}
use miya_api.Kernel.Policy.{KernelPolicy}

-- `task.parent_task_id.is_some()`: what the kernel counts as a child agent
abbrev pub is_child : SubtaskSpec → Bool
is_child task = is_some task.parent_task_id

unfoldable pub agent_count : TaskGraph → ℕ
agent_count g = count_values is_child g.tasks

-- As a `u16`: a number that does not fit counts as the greatest one.
unfoldable pub requested_agents : TaskGraph → SpawnPlan → ℕ
unfolding agent_count
requested_agents g plan =
    min (saturating_add usize_max (agent_count g) (length plan.children)) u16_max

module _ (scope : IsolationKey) (store : ArtifactStore) where
  unfoldable pub check_refs : List ArtifactRef → Result KernelError (Unit {0})
  check_refs [] = ok tt
  check_refs (r ∷ rs) =
      if not (r.scope =? scope)
      then err (artifact_scope_mismatch scope r.scope)
      else if not (contains_ref store r)
      then err (missing_artifact r.scope r.artifact_id)
      else check_refs rs

  unfoldable pub check_child : ℕ → TaskGraph → SubtaskSpec → Result KernelError (Unit {0})
  unfolding check_refs
  check_child max_depth g child =
      if ltb max_depth child.spawn_depth
      then err (spawn_depth_exceeded child.task_id child.spawn_depth max_depth)
      else if BTreeMap.contains_key child.task_id g.tasks
      then err (duplicate_task child.task_id)
      else check_refs child.input_artifact_refs

  unfoldable pub check_children : ℕ → TaskGraph → List SubtaskSpec → Result KernelError (Unit {0})
  unfolding check_child
  check_children max_depth g [] = ok tt
  check_children max_depth g (child ∷ rest) = elim (check_child max_depth g child) [
    | ok _ ↦ check_children max_depth g rest
    | err e ↦ err e
  ]

unfoldable pub insert_tasks : TaskGraph → List SubtaskSpec → TaskGraph
unfolding insert_task
insert_tasks g [] = g
insert_tasks g (child ∷ rest) = insert_tasks (insert_task g child) rest

-- The whole plan is checked before the graph is written.
unfoldable pub validate_and_apply :
    KernelPolicy
    → IsolationKey
    → ArtifactStore
    → SpawnPlan
    → Method TaskGraph KernelError (Unit {0})
unfolding requested_agents check_children insert_tasks
validate_and_apply policy scope store plan g =
    if ltb policy.limits.max_agents_per_request (requested_agents g plan)
    then (
      err (agent_limit_exceeded (requested_agents g plan) policy.limits.max_agents_per_request),
      g,
    )
    else elim (check_children scope store policy.limits.max_spawn_depth g plan.children) [
      | ok _ ↦ (ok tt, insert_tasks g plan.children)
      | err e ↦ (err e, g)
    ]
