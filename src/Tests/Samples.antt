-- ===== src/Tests/Samples.antt =====
-- Data that the tests share.
use miya_api.Prelude.{false, String, Option, none, some, List, [], ◌∷◌}
use miya_api.BTreeMap
use miya_api.Protocol.Ids.{IsolationKey, TaskId}
use miya_api.Protocol.Json.{Value}
use miya_api.Protocol.Limits.{default_agent_limits, ReasoningEffort}
use miya_api.Protocol.Tasks.{
  AgentRole, Capability, CapabilitySet, SubtaskSpec, SpawnPlan, TaskGraph, ArtifactKind,
}
use miya_api.Protocol.Artifacts.{
  AgentArtifact, ToolCallRecord, ToolResultRecord, ToolCallStatus, ToolResultStatus, ToolChoice,
}
use miya_api.Protocol.Request.{NormalizedRequest, SourceFormat, ThinkingFormat}
use miya_api.Provider.{ProviderResponse, default_usage}
use miya_api.Kernel.ArtifactStore.{ArtifactStore}
use miya_api.Kernel.ToolLedger.{ToolLedger}
use miya_api.Kernel.Policy.{KernelPolicy, default_policy}
use miya_api.Kernel.Responses.{Working}

abbrev pub here : IsolationKey
here = record { tenant_id = "acme"; request_id = "r1"; conversation_fingerprint = "f" }

abbrev pub elsewhere : IsolationKey
elsewhere = record { tenant_id = "other"; request_id = "r1"; conversation_fingerprint = "f" }

abbrev pub task : TaskId → Option TaskId → CapabilitySet → SubtaskSpec
task t parent capabilities = record {
  task_id = t;
  parent_task_id = parent;
  spawn_depth = 1;
  role = AgentRole.worker;
  objective = "look";
  input_artifact_refs = record { scope = here; artifact_id = "m1" } ∷ [];
  expected_outputs = ArtifactKind.text ∷ [];
  allowed_capabilities = capabilities;
  limits = default_agent_limits;
}

abbrev pub child : TaskId → SubtaskSpec
child t = task t (some "root") (Capability.text ∷ [])

abbrev pub root : SubtaskSpec
root = task "root" none (Capability.text ∷ Capability.spawn ∷ [])

abbrev pub graph : TaskGraph
graph = record { root_task_id = "root"; tasks = ("root", root) ∷ []; dependencies = BTreeMap.empty }

abbrev pub note : AgentArtifact
note = AgentArtifact.text "m1" here "a note"

abbrev pub store : ArtifactStore
store = record { artifacts = ((here, "m1"), note) ∷ [] }

abbrev pub plan : List SubtaskSpec → SpawnPlan
plan children = record {
  parent_task_id = "root";
  reason = "split";
  children = children;
  expected_artifacts = [];
  budget_request = record { max_tokens = 1; max_tool_calls = 0 };
}

abbrev pub policy : KernelPolicy
policy = default_policy

abbrev pub call : String → ToolCallRecord
call i = record {
  tool_call_id = i;
  scope = here;
  task_id = "root";
  agent_id = "leader";
  tool_name = "search";
  arguments_json = Value.null;
  arguments_sha256 = "00";
  status = ToolCallStatus.pending;
  created_at_ms = 5;
  resolved_at_ms = none;
}

abbrev pub result : String → ToolResultRecord
result i = record {
  tool_call_id = i;
  scope = here;
  result_json = Value.null;
  result_sha256 = "00";
  status = ToolResultStatus.accepted;
}

abbrev pub ledger : ToolLedger
ledger = record { calls = ((here, "c1"), call "c1") ∷ ((here, "c2"), call "c2") ∷ []; results = [] }

abbrev pub response : List AgentArtifact → List ToolCallRecord → ProviderResponse
response artifacts calls = record {
  artifacts = artifacts;
  tool_calls = calls;
  usage = default_usage;
}

abbrev pub planned : List SubtaskSpec → ProviderResponse
planned children = response (AgentArtifact.spawn_plan "p1" here (plan children) ∷ []) []

abbrev pub working : Working
working = record { store = store; ledger = ledger; graph = graph; text_artifacts = [] }

abbrev pub request : ReasoningEffort → Value → NormalizedRequest
request effort metadata = record {
  request_id = "r1";
  tenant_id = "acme";
  conversation_fingerprint = "f";
  source_format = SourceFormat.open_ai_chat;
  model = "m";
  messages = [];
  media_artifacts = [];
  tools = [];
  tool_choice = ToolChoice.auto;
  parallel_tool_calls = none;
  tool_results = [];
  stream = false;
  thinking_enabled = false;
  thinking_format = ThinkingFormat.auto;
  reasoning_effort = effort;
  public_reasoning_enabled = false;
  provider_options = Value.null;
  metadata = metadata;
}
