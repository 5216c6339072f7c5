-- ===== src/Protocol/Artifacts.antt =====
-- Media, tool records, verification reports and the artifacts of crates/agent-protocol/src/lib.rs.
use miya_api.Prelude.{ℕ, Bool, String, Option, List}
use miya_api.Protocol.Ids.{TaskId, AgentId, ArtifactId, ToolCallId, RequestId, IsolationKey}
use miya_api.Protocol.Json.{Value}
use miya_api.Protocol.Limits.{BudgetSummary}
use miya_api.Protocol.Tasks.{ArtifactKind, SpawnPlan}

pub data MediaSource : Type 0 where
  base64 data_url remote_url : String → MediaSource

pub record MediaArtifact : Type 0 where
  pub id : ArtifactId
  pub scope : IsolationKey
  pub media_type : String
  pub source : MediaSource
  pub sha256 : String
  pub byte_len : Option ℕ

pub record ToolDefinition : Type 0 where
  pub name : String
  pub description : Option String
  pub input_schema : Value

pub data ToolChoice : Type 0 where
  auto none required : ToolChoice
  named : String → ToolChoice

pub data ToolCallStatus : Type 0 where
  pending resolved rejected : ToolCallStatus

pub record ToolCallRecord : Type 0 where
  pub tool_call_id : ToolCallId
  pub scope : IsolationKey
  pub task_id : TaskId
  pub agent_id : AgentId
  pub tool_name : String
  pub arguments_json : Value
  pub arguments_sha256 : String
  pub status : ToolCallStatus
  pub created_at_ms : ℕ
  pub resolved_at_ms : Option ℕ

pub data ToolResultStatus : Type 0 where
  accepted rejected : ToolResultStatus

pub record ToolResultRecord : Type 0 where
  pub tool_call_id : ToolCallId
  pub scope : IsolationKey
  pub result_json : Value
  pub result_sha256 : String
  pub status : ToolResultStatus

pub record VerificationIssue : Type 0 where
  pub code : String
  pub message : String

pub record ArtifactCoverage : Type 0 where
  pub artifact_id : ArtifactId
  pub kind : ArtifactKind
  pub covered : Bool

pub record VerificationReport : Type 0 where
  pub request_id : RequestId
  pub passed : Bool
  pub issues : List VerificationIssue
  pub artifact_coverage : List ArtifactCoverage
  pub unresolved_tool_calls : List ToolCallId
  pub budget_summary : BudgetSummary

pub record EncryptedAgentState : Type 0 where
  pub task_id : TaskId
  pub algorithm : String
  pub nonce : String
  pub ciphertext : String
  pub aad : String

pub data AgentArtifact : Type 0 where
  text : ArtifactId → IsolationKey → String → AgentArtifact
  media : MediaArtifact → AgentArtifact
  spawn_plan : ArtifactId → IsolationKey → SpawnPlan → AgentArtifact
  tool_call : ToolCallRecord → AgentArtifact
  tool_result : ToolResultRecord → AgentArtifact
  verification : ArtifactId → IsolationKey → VerificationReport → AgentArtifact

unfoldable pub id : AgentArtifact → ArtifactId
id (text i s t) = i
id (media m) = m.id
id (spawn_plan i s p) = i
id (tool_call r) = r.tool_call_id
id (tool_result r) = r.tool_call_id
id (verification i s r) = i

unfoldable pub scope : AgentArtifact → IsolationKey
scope (text i s t) = s
scope (media m) = m.scope
scope (spawn_plan i s p) = s
scope (tool_call r) = r.scope
scope (tool_result r) = r.scope
scope (verification i s r) = s
