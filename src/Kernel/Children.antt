-- ===== src/Kernel/Children.antt =====
-- The child agents' phase of `run_inner` in crates/agent-kernel/src/lib.rs: the children are asked at
-- the same time, and their answers are applied in the order of the tasks.
pub mod Order
pub mod Completion
pub mod Limits
use Prim.Native.String.{◌++◌ as concat}
use miya_api.Prelude.{
  ℕ, ◌+◌, leb, Bool, true, false, String, Option, none, some, List, [], ◌∷◌, ◌++◌, map, filter,
  filter_map, length, Result, ok, err, Method, continue, lift, if◌then◌else◌,
}
use miya_api.BTreeMap.{values}
use miya_api.Protocol.Ids.{IsolationKey}
use miya_api.Protocol.Tasks.{ArtifactRef, SubtaskSpec, SpawnPlan, TaskGraph}
use miya_api.Protocol.Artifacts.{AgentArtifact, EncryptedAgentState}
use miya_api.Protocol.Request.{NormalizedRequest, isolation_key}
use miya_api.Provider.{ProviderRequest, ProviderResponse}
use miya_api.Kernel.Error.{KernelError, encryption_failed}
use miya_api.Kernel.ArtifactStore
use miya_api.Kernel.ArtifactStore.{ArtifactStore}
use miya_api.Kernel.Policy.{KernelPolicy}
use miya_api.Kernel.SpawnValidator.{is_child}
use miya_api.Kernel.Responses.{apply_provider_response}
use miya_api.Kernel.Planning.{on_working}
use miya_api.Kernel.Runner.{
  Run, Reply, Prompts, reply_result, accumulate_usage, trace_agent_input,
  trace_events_from_response, push_trace, internal_request,
}

-- A tuple of `child_requests`: the request holds the task and the input text.
pub record ChildRequest : Type 0 where
  pub index : ℕ
  pub request : ProviderRequest

pub record ChildResult : Type 0 where
  pub child : ChildRequest
  pub response : ProviderResponse

-- `collect::<Result<Vec<_>, _>>()`: the first error of the list, or all values.
unfoldable pub collect_results {ℓ} : {E A : Type ℓ} → List (Result E A) → Result E (List A)
collect_results [] = ok []
collect_results (err e ∷ rest) = err e
collect_results (ok a ∷ rest) = elim (collect_results rest) [
  | ok others ↦ ok (a ∷ others)
  | err e ↦ err e
]

abbrev pub index_of : ChildResult → ℕ
index_of r = r.child.index

unfoldable pub insert_by_index : ChildResult → List ChildResult → List ChildResult
insert_by_index x [] = x ∷ []
insert_by_index x (y ∷ ys) =
    if leb (index_of x) (index_of y) then x ∷ y ∷ ys else y ∷ insert_by_index x ys

-- `sort_by_key`, which is stable
unfoldable pub sort_by_index : List ChildResult → List ChildResult
unfolding insert_by_index
sort_by_index [] = []
sort_by_index (x ∷ xs) = insert_by_index x (sort_by_index xs)

unfoldable pub child_tasks : TaskGraph → List SubtaskSpec
child_tasks g = filter is_child (values g.tasks)

module _ (prompts : Prompts) (policy : KernelPolicy) (request : NormalizedRequest) where
  abbrev pub with_timeout : SubtaskSpec → SubtaskSpec
  with_timeout task = record task {
    limits = record (task.limits) { timeout_ms = policy.limits.agent_timeout_ms };
  }

  unfoldable pub child_request : ArtifactStore → ℕ → SubtaskSpec → ChildRequest
  child_request store index task = record {
    index = index;
    request =
        internal_request prompts policy request (with_timeout task)
          (prompts.child_agent_input request (with_timeout task))
          (filter_map (λ (r : ArtifactRef). ArtifactStore.get store r.scope r.artifact_id)
            task.input_artifact_refs)
          (prompts.internal_agent_options request.provider_options
            policy.limits.max_tokens_per_agent);
  }

  -- `enumerate().map(..)` from an index on
  unfoldable pub child_requests : ArtifactStore → ℕ → List SubtaskSpec → List ChildRequest
  unfolding child_request
  child_requests store index [] = []
  child_requests store index (task ∷ rest) =
      child_request store index task ∷ child_requests store (index + 1) rest

  -- What a child's call comes to, with its place among the tasks; `reply` is how it ends.
  unfoldable pub child_result :
      (ChildRequest → Reply) → ChildRequest → Result KernelError ChildResult
  child_result reply child = elim (reply_result child.request (reply child)) [
    | ok response ↦ ok (record { child = child; response = response })
    | err e ↦ err e
  ]

  -- `encrypt` is the cipher over the JSON text of its arguments, with its random nonce for each use:
  -- a nonce and a ciphertext in hexadecimal digits.
  module _
      (encrypt : ℕ
        → IsolationKey
        → SubtaskSpec
        → ProviderResponse
        → String
        → Option (String × String))
      (plan_text : SpawnPlan → Option String) where
    unfoldable pub seal_subagent_state :
        ℕ → SubtaskSpec → ProviderResponse → Result KernelError EncryptedAgentState
    seal_subagent_state n task response =
        let scope = isolation_key request in
        let aad =
          concat scope.request_id
            (concat ":" (concat scope.conversation_fingerprint (concat ":" task.task_id))) in
        elim (encrypt n scope task response aad) [
          | none ↦ err encryption_failed
          | some (nonce, ciphertext) ↦ ok (record {
            task_id = task.task_id;
            algorithm = "AES-256-GCM";
            nonce = nonce;
            ciphertext = ciphertext;
            aad = aad;
          })
        ]

    -- the usage and the trace of an answer
    abbrev pub note_child : ChildResult → Run → Run
    note_child r run =
        push_trace
          (trace_agent_input r.child.request.task r.child.request.input_text
            ∷ trace_events_from_response r.child.request.task r.response)
          (accumulate_usage r.response run)

    unfoldable pub apply_child : ChildResult → Method Run KernelError (Unit {0})
    unfolding seal_subagent_state
    apply_child r run =
        let noted = note_child r run in
        continue
          (lift
            (seal_subagent_state (length noted.encrypted_subagent_state) r.child.request.task
              r.response)
            noted)
          (λ sealed run'.
            on_working
              (apply_provider_response plan_text policy (isolation_key request) r.child.request.task
                r.response)
              (record run' {
                encrypted_subagent_state = run'.encrypted_subagent_state ++ (sealed ∷ []);
              }))

    unfoldable pub apply_children : List ChildResult → Method Run KernelError (Unit {0})
    unfolding apply_child
    apply_children [] run = (ok tt, run)
    apply_children (r ∷ rest) run =
        continue (apply_child r run) (λ _ run'. apply_children rest run')

    -- The phase, with the children in the order in which their calls end.
    unfoldable pub run_children :
        (ChildRequest → Reply) → List ChildRequest → Method Run KernelError (Unit {0})
    unfolding child_result sort_by_index apply_children
    run_children reply completed run =
        continue
          (lift (collect_results (map (child_result reply) completed))
            (record run { invocations = run.invocations + length completed }))
          (λ results run'. apply_children (sort_by_index results) run')
