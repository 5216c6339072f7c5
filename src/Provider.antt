-- ===== src/Provider.antt =====
-- crates/provider-core/src/lib.rs: requests, responses, errors and stream events of a model
-- provider. The trait `ModelProvider` is what the kernel takes as a parameter.
use miya_api.Prelude.{
  ℕ, ◌+◌, ◌==◌, leb, Bool, true, false, ◌||◌, ◌&&◌, String, Option, none, some, List, [], ◌∷◌, ◌++◌,
  if◌then◌else◌,
}
use miya_api.Protocol.Ids.{ToolCallId, IsolationKey}
use miya_api.Protocol.Json.{Value}
use miya_api.Protocol.Tasks.{SubtaskSpec}
use miya_api.Protocol.Artifacts.{
  MediaArtifact, ToolDefinition, ToolChoice, ToolResultRecord, ToolCallRecord, AgentArtifact,
}
use miya_api.Protocol.Request.{NormalizedMessage, ThinkingFormat}

pub record ProviderRequest : Type 0 where
  pub scope : IsolationKey
  pub task : SubtaskSpec
  pub model : String
  pub system_instructions : List String
  pub thinking_enabled : Bool
  pub thinking_format : ThinkingFormat
  pub input_text : String
  pub messages : List NormalizedMessage
  pub media_artifacts : List MediaArtifact
  pub artifacts : List AgentArtifact
  pub tools : List ToolDefinition
  pub tool_choice : ToolChoice
  pub parallel_tool_calls : Option Bool
  pub tool_results : List ToolResultRecord
  pub provider_options : Value

pub record ProviderUsage : Type 0 where
  pub input_tokens : ℕ
  pub output_tokens : ℕ

abbrev pub default_usage : ProviderUsage
default_usage = record { input_tokens = 0; output_tokens = 0 }

pub record ProviderResponse : Type 0 where
  pub artifacts : List AgentArtifact
  pub tool_calls : List ToolCallRecord
  pub usage : ProviderUsage

pub data ProviderFinishReason : Type 0 where
  stop tool_calls function_call length : ProviderFinishReason
  other : String → ProviderFinishReason

pub data ProviderStreamEvent : Type 0 where
  text_delta : String → ProviderStreamEvent
  -- index, id, name, arguments delta
  tool_call_delta : ℕ → Option ToolCallId → Option String → String → ProviderStreamEvent
  finish : ProviderFinishReason → ProviderStreamEvent
  usage : ProviderUsage → ProviderStreamEvent

pub data ProviderError : Type 0 where
  rejected : String → ProviderError
  -- provider, status, code, message, retry_after_ms
  http : String → ℕ → Option String → String → Option ℕ → ProviderError
  -- provider, message, retryable
  transport : String → String → Bool → ProviderError
  -- provider, message
  invalid_response : String → String → ProviderError
  -- retry_after_ms
  circuit_open : ℕ → ProviderError
  -- wait_ms
  queue_timeout : ℕ → ProviderError

unfoldable pub retryable : ProviderError → Bool
retryable (rejected m) = false
retryable (http p status c m r) = status == 408 || status == 409 || status == 429 || leb 500 status
retryable (transport p m r) = r
retryable (invalid_response p m) = false
retryable (circuit_open r) = true
retryable (queue_timeout w) = true

unfoldable pub status : ProviderError → Option ℕ
status (http p s c m r) = some s
status _ = none

unfoldable pub code : ProviderError → Option String
code (rejected m) = none
code (http p s c m r) = c
code (transport p m r) = some "provider_transport_error"
code (invalid_response p m) = some "invalid_provider_response"
code (circuit_open r) = some "provider_circuit_open"
code (queue_timeout w) = some "provider_queue_timeout"

unfoldable pub retry_after_ms : ProviderError → Option ℕ
retry_after_ms (http p s c m r) = r
retry_after_ms (circuit_open r) = some r
retry_after_ms (queue_timeout w) = some w
retry_after_ms _ = none

-- The response as stream events; `print` is serde_json's text of a value.
module _ (print : Value → String) where
  usage_events : ProviderUsage → List ProviderStreamEvent
  usage_events u = if u.input_tokens == 0 && u.output_tokens == 0 then [] else usage u ∷ []

  text_events : List AgentArtifact → List ProviderStreamEvent
  text_events [] = []
  text_events (AgentArtifact.text i s t ∷ rest) = text_delta t ∷ text_events rest
  text_events (a ∷ rest) = text_events rest

  tool_call_events : ℕ → List ToolCallRecord → List ProviderStreamEvent
  tool_call_events index [] = []
  tool_call_events index (c ∷ rest) =
      tool_call_delta index (some c.tool_call_id) (some c.tool_name) (print c.arguments_json)
      ∷ tool_call_events (index + 1) rest

  unfoldable pub provider_response_stream : ProviderResponse → List ProviderStreamEvent
  unfolding usage_events text_events tool_call_events
  provider_response_stream r = elim r.tool_calls [
    | [] ↦ text_events r.artifacts ++ (usage_events r.usage ++ finish stop ∷ [])
    | c ∷ cs ↦ tool_call_events 0 (c ∷ cs) ++ (usage_events r.usage ++ finish tool_calls ∷ [])
  ]
