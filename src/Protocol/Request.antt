-- ===== src/Protocol/Request.antt =====
-- NormalizedRequest and its parts, of crates/agent-protocol/src/lib.rs.
use miya_api.Prelude.{Bool, String, Option, List}
use miya_api.Protocol.Ids.{TenantId, RequestId, ConversationFingerprint, ToolCallId, IsolationKey}
use miya_api.Protocol.Json.{Value}
use miya_api.Protocol.Limits.{ReasoningEffort}
use miya_api.Protocol.Tasks.{ArtifactRef}
use miya_api.Protocol.Artifacts.{MediaArtifact, ToolDefinition, ToolChoice, ToolResultRecord}

pub data SourceFormat : Type 0 where
  open_ai_chat anthropic_messages : SourceFormat

pub data ThinkingFormat : Type 0 where
  auto qwen_chat_template qwen_dash_scope gemma_system_token : ThinkingFormat

pub data MessageRole : Type 0 where
  system user assistant tool : MessageRole

pub data NormalizedContentPart : Type 0 where
  text : String → NormalizedContentPart
  image : ArtifactRef → NormalizedContentPart
  provider_content : SourceFormat → Value → NormalizedContentPart
  tool_call : ToolCallId → String → Value → NormalizedContentPart
  tool_result : ToolCallId → NormalizedContentPart

pub record NormalizedMessage : Type 0 where
  pub role : MessageRole
  pub content : List NormalizedContentPart

pub record NormalizedRequest : Type 0 where
  pub request_id : RequestId
  pub tenant_id : TenantId
  pub conversation_fingerprint : ConversationFingerprint
  pub source_format : SourceFormat
  pub model : String
  pub messages : List NormalizedMessage
  pub media_artifacts : List MediaArtifact
  pub tools : List ToolDefinition
  pub tool_choice : ToolChoice
  pub parallel_tool_calls : Option Bool
  pub tool_results : List ToolResultRecord
  pub stream : Bool
  pub thinking_enabled : Bool
  pub thinking_format : ThinkingFormat
  pub reasoning_effort : ReasoningEffort
  pub public_reasoning_enabled : Bool
  pub provider_options : Value
  pub metadata : Value

unfoldable pub isolation_key : NormalizedRequest → IsolationKey
isolation_key r = record {
  tenant_id = r.tenant_id;
  request_id = r.request_id;
  conversation_fingerprint = r.conversation_fingerprint;
}
