-- ===== src/Kernel/SpawnValidator/Agents.antt =====
-- How many agents a graph has after a plan, and which tasks it holds.
use miya_api.Prelude.{
  ℕ, ◌+◌, ◌≤◌, ◌<◌, ◌≡◌, ◌≢◌, refl, true, none, some, List, [], ◌∷◌, All, length, =?_iff, ok, arith,
  u16_max, text_ord, ap, ◌∙◌, ◌⊎◌, inl, inr,
}
use miya_api.BTreeMap
use miya_api.BTreeMap.{count_values, count_values-insert-le, count_values-insert_new, get-insert}
use miya_api.Protocol.Ids.{TaskId, IsolationKey}
use miya_api.Protocol.Tasks.{SubtaskSpec, SpawnPlan, TaskGraph, insert_task}
use miya_api.Kernel.ArtifactStore.{ArtifactStore}
use miya_api.Kernel.Policy.{KernelPolicy}
use miya_api.Kernel.SpawnValidator.{
  is_child, agent_count, requested_agents, insert_tasks, validate_and_apply,
}
use miya_api.Kernel.SpawnValidator.Admission.{
  Admissible, validate_and_apply_iff, validate_and_apply-admitted,
}

agent_count-insert_task-le :
    (g : TaskGraph) (c : SubtaskSpec) → agent_count (insert_task g c) ≤ agent_count g + 1
unfolding agent_count insert_task
agent_count-insert_task-le g c = ground (arith, count_values-insert-le is_child c.task_id c g.tasks)

pub agent_count-insert_tasks-le :
    (g : TaskGraph) (cs : List SubtaskSpec)
    → agent_count (insert_tasks g cs) ≤ agent_count g + length cs
unfolding insert_tasks
agent_count-insert_tasks-le g [] = omega arith
agent_count-insert_tasks-le g (c ∷ cs) =
    omega (arith, agent_count-insert_tasks-le (insert_task g c) cs, agent_count-insert_task-le g c)

-- An admitted plan leaves at most as many child agents in the graph as the request may have, if
-- that limit is below the greatest `u16`; a refused plan adds none.
pub validate_and_apply_bound :
    (policy : KernelPolicy) (scope : IsolationKey) (store : ArtifactStore) (plan : SpawnPlan)
    (g : TaskGraph)
    → policy.limits.max_agents_per_request < u16_max
    → agent_count g ≤ policy.limits.max_agents_per_request
    → agent_count (validate_and_apply policy scope store plan g).1
      ≤ policy.limits.max_agents_per_request
unfolding validate_and_apply requested_agents
validate_and_apply_bound policy scope store plan g small before =
    ground (arith, agent_count-insert_tasks-le g plan.children)

-- The ids of the children differ from one another.
abbrev pub Distinct : List SubtaskSpec → Type 0
Distinct [] = Unit
Distinct (c ∷ cs) = All (λ d. d.task_id ≢ c.task_id) cs × Distinct cs

abbrev pub Absent : TaskGraph → List SubtaskSpec → Type 0
Absent g = All (λ c. BTreeMap.get c.task_id g.tasks ≡ none)

abbrev pub AllChildren : List SubtaskSpec → Type 0
AllChildren = All (λ c. is_child c ≡ true)

Absent-insert_task :
    (g : TaskGraph) (c : SubtaskSpec) (cs : List SubtaskSpec)
    → All (λ d. d.task_id ≢ c.task_id) cs
    → Absent g cs
    → Absent (insert_task g c) cs
unfolding insert_task
Absent-insert_task g c [] differ absent = tt
Absent-insert_task g c (d ∷ cs) differ absent = ground (
  arith,
  get-insert c.task_id d.task_id c g.tasks,
  =?_iff c.task_id d.task_id,
  Absent-insert_task g c cs differ.1 absent.1,
)

agent_count-insert_task_new :
    (g : TaskGraph) (c : SubtaskSpec)
    → BTreeMap.get c.task_id g.tasks ≡ none
    → is_child c ≡ true
    → agent_count (insert_task g c) ≡ agent_count g + 1
unfolding agent_count insert_task
agent_count-insert_task_new g c absent child =
    ground (arith, count_values-insert_new is_child c.task_id c g.tasks absent)

-- Children with a parent and with new ids that differ from one another are so many new agents.
pub agent_count-insert_tasks :
    (g : TaskGraph) (cs : List SubtaskSpec)
    → Distinct cs
    → AllChildren cs
    → Absent g cs
    → agent_count (insert_tasks g cs) ≡ agent_count g + length cs
unfolding insert_tasks
agent_count-insert_tasks g [] distinct children absent = omega arith
agent_count-insert_tasks g (c ∷ cs) distinct children absent = omega (
  arith,
  agent_count-insert_tasks (insert_task g c) cs distinct.1 children.1
      (Absent-insert_task g c cs distinct.0 absent.1),
  agent_count-insert_task_new g c absent.0 children.0,
)

Absent-Admissible :
    (scope : IsolationKey) (store : ArtifactStore) (depth : ℕ) (g : TaskGraph)
    (cs : List SubtaskSpec)
    → All (Admissible scope store depth g) cs
    → Absent g cs
Absent-Admissible scope store depth g [] h = tt
Absent-Admissible scope store depth g (c ∷ cs) h =
    (h.0.1, Absent-Admissible scope store depth g cs h.1)

-- If the children of an admitted plan all name a parent and have ids that differ from one another,
-- the graph has exactly that many agents more.
pub validate_and_apply_agents :
    (policy : KernelPolicy) (scope : IsolationKey) (store : ArtifactStore) (plan : SpawnPlan)
    (g : TaskGraph)
    → (validate_and_apply policy scope store plan g).0 ≡ ok tt
    → Distinct plan.children
    → AllChildren plan.children
    → agent_count (validate_and_apply policy scope store plan g).1
      ≡ agent_count g + length plan.children
validate_and_apply_agents policy scope store plan g admitted distinct children =
    rw (validate_and_apply-admitted policy scope store plan g admitted) (
      agent_count-insert_tasks g plan.children distinct children (
        Absent-Admissible scope store policy.limits.max_spawn_depth g plan.children
          ((validate_and_apply_iff policy scope store plan g).0 admitted).1))

get-insert_tasks :
    (t : TaskId) (g : TaskGraph) (cs : List SubtaskSpec)
    → All (λ c. c.task_id ≢ t) cs
    → BTreeMap.get t (insert_tasks g cs).tasks ≡ BTreeMap.get t g.tasks
unfolding insert_tasks
get-insert_tasks t g [] h = refl
get-insert_tasks t g (c ∷ cs) h = rw (get-insert_tasks t (insert_task g c) cs h.1) step
  where
    step : BTreeMap.get t (insert_task g c).tasks ≡ BTreeMap.get t g.tasks
    step =
        unfold insert_task in ground (arith, get-insert c.task_id t c g.tasks, =?_iff c.task_id t)

ne_of_absent :
    (scope : IsolationKey) (store : ArtifactStore) (depth : ℕ) (g : TaskGraph) (t : TaskId)
    (old : SubtaskSpec) (cs : List SubtaskSpec)
    → BTreeMap.get t g.tasks ≡ some old
    → All (Admissible scope store depth g) cs
    → All (λ c. c.task_id ≢ t) cs
ne_of_absent scope store depth g t old [] e h = tt
ne_of_absent scope store depth g t old (c ∷ cs) e h = (
  λ q. cc (h.0.1, e, ap (λ u. BTreeMap.get u g.tasks) q),
  ne_of_absent scope store depth g t old cs e h.1,
)

validate_and_apply_cases :
    (policy : KernelPolicy) (scope : IsolationKey) (store : ArtifactStore) (plan : SpawnPlan)
    (g : TaskGraph)
    → ((validate_and_apply policy scope store plan g).0 ≡ ok tt)
      ⊎ ((validate_and_apply policy scope store plan g).1 ≡ g)
unfolding validate_and_apply
validate_and_apply_cases policy scope store plan g = ground arith

-- No plan changes a task that is in the graph, the root among them.
pub validate_and_apply_keeps :
    (policy : KernelPolicy) (scope : IsolationKey) (store : ArtifactStore) (plan : SpawnPlan)
    (g : TaskGraph) (t : TaskId) (old : SubtaskSpec)
    → BTreeMap.get t g.tasks ≡ some old
    → BTreeMap.get t (validate_and_apply policy scope store plan g).1.tasks ≡ some old
validate_and_apply_keeps policy scope store plan g t old e =
    elim (validate_and_apply_cases policy scope store plan g) [
      | inl admitted ↦ rw (validate_and_apply-admitted policy scope store plan g admitted) (
          get-insert_tasks t g plan.children (
            ne_of_absent scope store policy.limits.max_spawn_depth g t old plan.children e
              ((validate_and_apply_iff policy scope store plan g).0 admitted).1)
          ∙ e)
      | inr same ↦ rw same e
    ]
