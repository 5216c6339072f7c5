-- ===== src/ApiServer/Batch/Anthropic.antt =====
-- The run of a batch of Anthropic messages in crates/api-server/src/batch_api.rs, from its record to
-- the record that is stored at its end.
pub mod Totals
pub mod Handlers
pub mod Results
use Prim.Native.String.{◌++◌ as concat}
use miya_api.Prelude.{
  ℕ, ◌+◌, Bool, true, false, ◌||◌, String, Option, none, some, List, [], ◌∷◌, map, length, max,
  Result, ok, err, Method, pure, fail, lift, ◌>>=◌, ◌>>◌, continue, saturating_add, u64_max, join,
  if◌then◌else◌,
}
use miya_api.Protocol.Json.{Value, string, object, end, field, get}
use miya_api.ApiServer.DurableStore.{Memory, Codec, put_json, get_blob}
use miya_api.ApiServer.Batch.Service.{
  Service, Environment, stored, unix_timestamp_secs, write_jsonl_blob,
}
use miya_api.ApiServer.Batch.{BatchDispatchResult}
use miya_api.ApiServer.Batch.Tally.{ItemResult, succeeds}
use miya_api.ApiServer.Batch.OpenAi.{found}

abbrev pub anthropic_batches_namespace : String
anthropic_batches_namespace = "anthropic_message_batches"

abbrev pub anthropic_batch_inputs_namespace : String
anthropic_batch_inputs_namespace = "anthropic_message_batch_inputs"

abbrev pub anthropic_batch_results_namespace : String
anthropic_batch_results_namespace = "anthropic_message_batch_results"

pub record AnthropicBatchRequestCounts : Type 0 where
  pub processing : ℕ
  pub succeeded : ℕ
  pub errored : ℕ
  pub canceled : ℕ
  pub expired : ℕ

abbrev pub default_counts : AnthropicBatchRequestCounts
default_counts = record { processing = 0; succeeded = 0; errored = 0; canceled = 0; expired = 0 }

pub record AnthropicBatchRecord : Type 0 where
  pub tenant_id : String
  pub id : String
  pub created_at : ℕ
  pub expires_at : ℕ
  pub ended_at : Option ℕ
  pub cancel_initiated_at : Option ℕ
  pub archived_at : Option ℕ
  pub processing_status : String
  pub request_counts : AnthropicBatchRequestCounts
  pub cancel_requested : Bool

pub record AnthropicBatchInput : Type 0 where
  pub custom_id : String
  pub params : Value

-- What the run of a batch uses of other code: the clock, serde_json with its errors as texts, the
-- digest of the tenant, and the requests themselves, whose results come in any order.
pub record Outside : Type 0 where
  pub env : Environment
  pub tenant_hash : String → String
  pub to_writer : Value → Result String (List ℕ)
  pub from_slice : List ℕ → Result String (List AnthropicBatchInput)
  pub run_items : List AnthropicBatchInput → Service → List ItemResult × Service

abbrev pub typed : String → Value
typed type_ = object (field "type" (string type_) end)

abbrev pub result_line : String → Value → Value
result_line custom_id result =
    object (field "custom_id" (string custom_id) (field "result" result end))

abbrev pub errored_with : Value → Value
errored_with error = object (field "type" (string "errored") (field "error" error end))

abbrev pub api_error : String → Value
api_error message =
    object (field "type" (string "api_error") (field "message" (string message) end))

-- `body.get("error").cloned().unwrap_or(body)`
abbrev pub error_of : Value → Value
error_of body = elim (get "error" body) [ some e ↦ e | none ↦ body ]

-- The counts after a result, and what its line says.
unfoldable pub item_outcome :
    Option (Result String BatchDispatchResult)
    → AnthropicBatchRequestCounts
    → AnthropicBatchRequestCounts × Value
item_outcome none counts =
    (record counts { canceled = saturating_add u64_max counts.canceled 1 }, typed "canceled")
item_outcome (some (ok result)) counts =
    if succeeds result.status_code
    then (
      record counts { succeeded = saturating_add u64_max counts.succeeded 1 },
      object (field "type" (string "succeeded") (field "message" result.body end)),
    )
    else (
      record counts { errored = saturating_add u64_max counts.errored 1 },
      errored_with (error_of result.body),
    )
item_outcome (some (err error)) counts = (
  record counts { errored = saturating_add u64_max counts.errored 1 },
  errored_with (api_error error),
)

-- The loop over the results: the counts, and the lines.
unfoldable pub item_outcomes :
    List ItemResult → AnthropicBatchRequestCounts → AnthropicBatchRequestCounts × List Value
item_outcomes [] counts = (counts, [])
item_outcomes ((custom_id, result) ∷ rest) counts =
    let (after, value) = item_outcome result counts in
    let (last, lines) = item_outcomes rest after in (last, result_line custom_id value ∷ lines)

-- The record of a batch at its end.
abbrev pub ended : ℕ → AnthropicBatchRequestCounts → AnthropicBatchRecord → AnthropicBatchRecord
ended now counts batch = record batch {
  processing_status = "ended";
  ended_at = some now;
  request_counts = counts;
}

abbrev pub inputs_of :
    Result String (List AnthropicBatchInput) → Result String (List AnthropicBatchInput)
inputs_of (ok inputs) = ok inputs
inputs_of (err error) = err (concat "invalid persisted Message Batch input: " error)

module _ (o : Outside) where
  abbrev pub write_results : AnthropicBatchRecord → List Value → Method Service String (Unit {0})
  write_results batch lines =
      write_jsonl_blob o.to_writer o.env o.tenant_hash anthropic_batch_results_namespace
        batch.tenant_id batch.id lines

  unfoldable pub load_inputs :
      AnthropicBatchRecord → Method Service String (List AnthropicBatchInput)
  load_inputs batch = do
    bytes ←
        stored (get_blob o.tenant_hash anthropic_batch_inputs_namespace batch.tenant_id batch.id)
    bytes ← found "Message Batch input is missing" bytes
    lift (inputs_of (o.from_slice bytes))

  module _ ⦃batch_codec : Codec AnthropicBatchRecord⦄ where
    unfoldable pub put_batch : AnthropicBatchRecord → Method Service String (Unit {0})
    put_batch batch =
        stored (put_json o.tenant_hash anthropic_batches_namespace batch.tenant_id batch.id batch)

    -- the writes at the end of a batch
    unfoldable pub end_batch :
        AnthropicBatchRecord
        → AnthropicBatchRequestCounts
        → List Value
        → Method Service String (Unit {0})
    end_batch batch counts lines = do
      write_results batch lines
      now ← unix_timestamp_secs o.env
      put_batch (ended now counts batch)

    unfoldable pub finish_cancelled_anthropic_batch :
        AnthropicBatchRecord → List AnthropicBatchInput → Method Service String (Unit {0})
    finish_cancelled_anthropic_batch batch inputs =
        end_batch batch (record default_counts { canceled = length inputs })
          (map (λ (i : AnthropicBatchInput). result_line i.custom_id (typed "canceled")) inputs)

    -- the requests, and what follows their results
    unfoldable pub run_requests :
        AnthropicBatchRecord → List AnthropicBatchInput → Method Service String (Unit {0})
    run_requests batch inputs s =
        let results = o.run_items inputs s in
        let outcomes = item_outcomes results.0 default_counts in
        end_batch batch (record outcomes.0 { processing = 0 }) outcomes.1 results.1

    -- what follows the reading of the input
    unfoldable pub process_inputs :
        Bool → AnthropicBatchRecord → List AnthropicBatchInput → Method Service String (Unit {0})
    process_inputs cancelled batch inputs =
        if batch.cancel_requested || cancelled
        then finish_cancelled_anthropic_batch batch inputs
        else run_requests batch inputs

    -- `cancelled` tells whether the token was cancelled after the input was read.
    unfoldable pub run_anthropic_batch :
        Bool → AnthropicBatchRecord → Method Service String (Unit {0})
    run_anthropic_batch cancelled batch = do
      inputs ← load_inputs batch
      process_inputs cancelled batch inputs

    -- the writes of a failed batch, whose own failures are ignored
    unfoldable pub fail_anthropic_batch : AnthropicBatchRecord → String → Service → Service
    fail_anthropic_batch batch error s =
        let written =
          (write_results batch (result_line "_batch" (errored_with (api_error error)) ∷ []) s).1 in
        let counts = record batch.request_counts {
          processing = 0;
          errored = max batch.request_counts.errored 1;
        } in
        (put_batch (ended (o.env.time_at written.reads) counts batch)
          (record written { reads = written.reads + 1 })).1

    -- the worker that `spawn_anthropic_batch` starts
    unfoldable pub anthropic_worker : Bool → AnthropicBatchRecord → Service → Service
    anthropic_worker cancelled batch s =
        let run = run_anthropic_batch cancelled batch s in
        elim run.0 [ ok u ↦ run.1 | err error ↦ fail_anthropic_batch batch error run.1 ]

unfoldable pub anthropic_batch_job_key : AnthropicBatchRecord → String
anthropic_batch_job_key batch = join "anthropic-batch" (join batch.tenant_id batch.id)
