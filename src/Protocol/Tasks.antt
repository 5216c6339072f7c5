-- ===== src/Protocol/Tasks.antt =====
-- Roles, capabilities, sub-task specifications, spawn plans and the task graph of
-- crates/agent-protocol/src/lib.rs.
use miya_api.Prelude.{
  ℕ, ◌==◌, Bool, String, Option, none, some, List, [], ◌∷◌, text_ord, any, unwrap_or, ◌=?◌,
  if◌then◌else◌,
}
use miya_api.BTreeMap.{BTreeMap, empty, get, insert}
use miya_api.Protocol.Ids.{TaskId, ArtifactId, IsolationKey}
use miya_api.Protocol.Limits.{AgentLimits, BudgetRequest}

pub data ArtifactKind : Type 0 where
  text media spawn_plan tool_call tool_result verification : ArtifactKind

pub record ArtifactRef : Type 0 where
  pub scope : IsolationKey
  pub artifact_id : ArtifactId

pub data AgentRole : Type 0 where
  leader worker verifier reasoning_summarizer synthesizer : AgentRole

pub data Capability : Type 0 where
  text image tool_call spawn verify : Capability

-- The place of a variant in its declaration, by which the derived order compares.
abbrev discriminant : Capability → ℕ
discriminant Capability.text = 0
discriminant image = 1
discriminant Capability.tool_call = 2
discriminant spawn = 3
discriminant verify = 4

-- A `BTreeSet` of which the program asks membership only.
abbrev pub CapabilitySet : Type 0
CapabilitySet = List Capability

unfoldable pub contains : CapabilitySet → Capability → Bool
contains s c = any (λ d. discriminant d == discriminant c) s

pub record SubtaskSpec : Type 0 where
  pub task_id : TaskId
  pub parent_task_id : Option TaskId
  pub spawn_depth : ℕ
  pub role : AgentRole
  pub objective : String
  pub input_artifact_refs : List ArtifactRef
  pub expected_outputs : List ArtifactKind
  pub allowed_capabilities : CapabilitySet
  pub limits : AgentLimits

pub record SpawnPlan : Type 0 where
  pub parent_task_id : TaskId
  pub reason : String
  pub children : List SubtaskSpec
  pub expected_artifacts : List ArtifactKind
  pub budget_request : BudgetRequest

pub record TaskGraph : Type 0 where
  pub root_task_id : TaskId
  pub tasks : BTreeMap TaskId SubtaskSpec
  pub dependencies : BTreeMap TaskId (List TaskId)

pub new_graph : TaskId → TaskGraph
new_graph root = record { root_task_id = root; tasks = empty; dependencies = empty }

-- `BTreeSet::insert`: an element that is there stays once.
abbrev pub insert_id : TaskId → List TaskId → List TaskId
insert_id t ts = if any (λ u. u =? t) ts then ts else t ∷ ts

-- The edge to the parent, if the task has one.
abbrev add_dependency :
    TaskId → Option TaskId → BTreeMap TaskId (List TaskId) → BTreeMap TaskId (List TaskId)
add_dependency t none ds = ds
add_dependency t (some parent) ds = insert t (insert_id parent (unwrap_or (get t ds) [])) ds

unfoldable pub insert_task : TaskGraph → SubtaskSpec → TaskGraph
insert_task g task = record g {
  tasks = insert task.task_id task g.tasks;
  dependencies = add_dependency task.task_id task.parent_task_id g.dependencies;
}
