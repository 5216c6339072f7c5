-- ===== src/Kernel/Runner.antt =====
-- `KernelRunner` of crates/agent-kernel/src/lib.rs: the state of a run, its calls of the provider,
-- its usage and its trace.
pub mod Calls
use Prim.Native.String.{◌++◌ as concat}
use miya_api.Prelude.{
  ℕ, ◌+◌, ◌==◌, Bool, false, ◌&&◌, String, Option, none, some, List, [], ◌∷◌, ◌++◌, is_empty,
  saturating_add, u32_max, Result, ok, err, Method, if◌then◌else◌,
}
use miya_api.Protocol.Ids.{TaskId, IsolationKey}
use miya_api.Protocol.Json.{Value}
use miya_api.Protocol.Limits.{default_agent_limits}
use miya_api.Protocol.Tasks.{SubtaskSpec, AgentRole, SpawnPlan}
use miya_api.Protocol.Artifacts.{
  AgentArtifact, ToolCallRecord, ToolChoice, EncryptedAgentState, VerificationIssue,
}
use miya_api.Protocol.Request.{NormalizedRequest, isolation_key}
use miya_api.Provider.{ProviderRequest, ProviderResponse, ProviderUsage, ProviderError}
use miya_api.Kernel.Error.{KernelError, provider, agent_timeout}
use miya_api.Kernel.Policy.{KernelPolicy}
use miya_api.Kernel.Responses.{Working}

pub data KernelTraceEvent : Type 0 where
  -- task, role, objective, input text
  agent_input : TaskId → AgentRole → String → String → KernelTraceEvent
  -- task, reason, children
  spawn_plan : TaskId → String → List SubtaskSpec → KernelTraceEvent
  -- task, role, text outputs, tool calls, usage
  agent_output :
      TaskId → AgentRole → List String → List ToolCallRecord → ProviderUsage → KernelTraceEvent

-- The variables that `run_inner` mutates, and the number of provider calls made.
pub record Run : Type 0 where
  pub working : Working
  pub usage : ProviderUsage
  pub provider_call_count : ℕ
  pub trace_events : List KernelTraceEvent
  pub encrypted_subagent_state : List EncryptedAgentState
  pub invocations : ℕ

-- How a call of the provider ends: the future of `invoke` is done, or its time is over.
pub data Reply : Type 0 where
  answered : ProviderResponse → Reply
  failed : ProviderError → Reply
  timed_out : Reply

-- A `ModelProvider`, as what it replies to each call: the same request may be answered differently
-- later.
abbrev pub ModelProvider : Type 0
ModelProvider = ℕ → ProviderRequest → Reply

-- The texts and options of the requests, which the kernel hands to the provider unread.
pub record Prompts : Type 0 where
  pub flatten_text : NormalizedRequest → String
  pub system_instructions : NormalizedRequest → KernelPolicy → List String
  pub planner_provider_options : Value → KernelPolicy → Value
  pub planner_input : NormalizedRequest → KernelPolicy → String
  pub planner_repair_input : NormalizedRequest → KernelPolicy → ProviderResponse → ℕ → String
  pub child_agent_input : NormalizedRequest → SubtaskSpec → String
  pub internal_agent_options : Value → ℕ → Value
  pub min_output_options : Value → ℕ → Value
  pub verifier_input : NormalizedRequest → List AgentArtifact → String → String
  pub repair_input :
      NormalizedRequest → List AgentArtifact → String → List VerificationIssue → String
  pub synthesis_input : NormalizedRequest → List AgentArtifact → String
  pub error_text : KernelError → String
  pub layout : String → String

unfoldable pub effective_timeout_ms : ProviderRequest → ℕ
effective_timeout_ms request =
    if request.task.limits.timeout_ms == 0
    then default_agent_limits.timeout_ms
    else request.task.limits.timeout_ms

unfoldable pub reply_result : ProviderRequest → Reply → Result KernelError ProviderResponse
unfolding effective_timeout_ms
reply_result request (answered response) = ok response
reply_result request (failed e) = err (provider e)
reply_result request timed_out =
    err (agent_timeout request.task.task_id (effective_timeout_ms request))

unfoldable pub invoke_provider :
    ModelProvider → ProviderRequest → Method Run KernelError ProviderResponse
unfolding reply_result
invoke_provider model request run = (
  reply_result request (model run.invocations request),
  record run { invocations = run.invocations + 1 },
)

unfoldable pub accumulate_usage : ProviderResponse → Run → Run
accumulate_usage response run = record run {
  provider_call_count = saturating_add u32_max run.provider_call_count 1;
  usage = record {
    input_tokens = saturating_add u32_max run.usage.input_tokens response.usage.input_tokens;
    output_tokens = saturating_add u32_max run.usage.output_tokens response.usage.output_tokens;
  };
}

unfoldable pub trace_agent_input : SubtaskSpec → String → KernelTraceEvent
trace_agent_input task input = agent_input task.task_id task.role task.objective input

-- the text artifacts' texts, in order
unfoldable pub texts_of : List AgentArtifact → List String
texts_of [] = []
texts_of (AgentArtifact.text i s t ∷ rest) = t ∷ texts_of rest
texts_of (a ∷ rest) = texts_of rest

plan_events : SubtaskSpec → List AgentArtifact → List KernelTraceEvent
plan_events task [] = []
plan_events task (AgentArtifact.spawn_plan i s plan ∷ rest) =
    spawn_plan task.task_id plan.reason plan.children ∷ plan_events task rest
plan_events task (a ∷ rest) = plan_events task rest

unfoldable pub trace_events_from_response : SubtaskSpec → ProviderResponse → List KernelTraceEvent
unfolding texts_of plan_events
trace_events_from_response task response =
    plan_events task response.artifacts
    ++ (if is_empty (texts_of response.artifacts) && is_empty response.tool_calls
        then []
        else agent_output task.task_id task.role (texts_of response.artifacts) response.tool_calls
            response.usage
          ∷ [])

abbrev pub push_trace : List KernelTraceEvent → Run → Run
push_trace events run = record run { trace_events = run.trace_events ++ events }

-- One call as the kernel makes it: the input goes into the trace, the provider is asked, the answer
-- is changed by `f`, counted and traced.
unfoldable pub ask :
    ModelProvider
    → (ProviderResponse → ProviderResponse)
    → ProviderRequest
    → Method Run KernelError ProviderResponse
unfolding invoke_provider accumulate_usage trace_agent_input trace_events_from_response
ask model f request run = answer (
    invoke_provider model request
      (push_trace (trace_agent_input request.task request.input_text ∷ []) run))
  where
    answer : Result KernelError ProviderResponse × Run → Result KernelError ProviderResponse × Run
    answer (ok response, run') = (
      ok (f response),
      push_trace (trace_events_from_response request.task (f response))
          (accumulate_usage (f response) run'),
    )
    answer (err e, run') = (err e, run')

-- `artifacts` joined by line breaks
join_lines : List String → String
join_lines [] = ""
join_lines (t ∷ []) = t
join_lines (t ∷ u ∷ rest) = concat t (concat "\n" (join_lines (u ∷ rest)))

unfoldable pub synthesize_text : List AgentArtifact → String
unfolding texts_of join_lines
synthesize_text artifacts = join_lines (texts_of artifacts)

-- A request of an internal agent: no messages, tools or tool results of the client.
abbrev pub internal_request :
    Prompts
    → KernelPolicy
    → NormalizedRequest
    → SubtaskSpec
    → String
    → List AgentArtifact
    → Value
    → ProviderRequest
internal_request prompts policy request task input artifacts options = record {
  scope = isolation_key request;
  task = task;
  model = request.model;
  system_instructions = prompts.system_instructions request policy;
  thinking_enabled = request.thinking_enabled;
  thinking_format = request.thinking_format;
  input_text = input;
  messages = [];
  media_artifacts = request.media_artifacts;
  artifacts = artifacts;
  tools = [];
  tool_choice = ToolChoice.none;
  parallel_tool_calls = none;
  tool_results = [];
  provider_options = options;
}
