-- ===== src/ApiServer/Batch/Tally.antt =====
-- The results of a batch of OpenAI requests, as `run_openai_batch` of
-- crates/api-server/src/batch_api.rs counts and writes them.
pub mod Kinds
use Prim.Native.String.{◌++◌ as concat}
use miya_api.Prelude.{
  ℕ, ◌+◌, leb, Bool, ◌&&◌, String, Option, none, some, List, [], ◌∷◌, ◌++◌, Result, ok, err,
  saturating_add, u64_max, if◌then◌else◌,
}
use miya_api.Protocol.Json.{Value, null, number, string, object, end, field}
use miya_api.Provider.{ProviderUsage, default_usage}
use miya_api.ApiServer.Batch.{BatchDispatchResult, OpenAiBatchRequestCounts, accumulate_json_usage}

-- The id of a request with its result: `None` if it was cancelled.
abbrev pub ItemResult : Type 0
ItemResult = String × Option (Result String BatchDispatchResult)

-- The variables of the loop over the results.
pub record Tally : Type 0 where
  pub request_counts : OpenAiBatchRequestCounts
  pub usage : ProviderUsage
  pub cancelled : ℕ
  pub output_lines : List Value
  pub error_lines : List Value

abbrev pub first_tally : OpenAiBatchRequestCounts → Tally
first_tally counts = record {
  request_counts = counts;
  usage = default_usage;
  cancelled = 0;
  output_lines = [];
  error_lines = [];
}

abbrev pub succeeds : ℕ → Bool
succeeds status_code = leb 200 status_code && leb (status_code + 1) 300

abbrev pub response_line : String → String → BatchDispatchResult → Value
response_line request_id custom_id result = object (
    field "id" (string request_id) (
      field "custom_id" (string custom_id) (
        field "response"
          (object (
            field "status_code" (number result.status_code)
              (field "request_id" (string request_id) (field "body" result.body end))))
          (field "error" null end))))

abbrev pub dispatch_error_line : String → String → String → Value
dispatch_error_line request_id custom_id error = object (
    field "id" (string request_id) (
      field "custom_id" (string custom_id) (
        field "response" null (
          field "error"
            (object
              (field "code" (string "batch_dispatch_error") (field "message" (string error) end)))
            end))))

abbrev pub count_completed : OpenAiBatchRequestCounts → OpenAiBatchRequestCounts
count_completed counts = record counts { completed = saturating_add u64_max counts.completed 1 }

abbrev pub count_failed : ℕ → OpenAiBatchRequestCounts → OpenAiBatchRequestCounts
count_failed n counts = record counts { failed = saturating_add u64_max counts.failed n }

-- `request_id` is the text that a new id of the request ends with.
unfoldable pub tally_result : String → ItemResult → Tally → Tally
tally_result uuid (custom_id, none) t = record t {
  cancelled = saturating_add u64_max t.cancelled 1;
}
tally_result uuid (custom_id, some (ok result)) t =
    let line = response_line (concat "batch_req_" uuid) custom_id result in
    if succeeds result.status_code
    then (record t {
      request_counts = count_completed t.request_counts;
      usage = accumulate_json_usage t.usage result.body;
      output_lines = t.output_lines ++ (line ∷ []);
    })
    else (record t {
      request_counts = count_failed 1 t.request_counts;
      error_lines = t.error_lines ++ (line ∷ []);
    })
tally_result uuid (custom_id, some (err error)) t = record t {
  request_counts = count_failed 1 t.request_counts;
  error_lines =
      t.error_lines ++ (dispatch_error_line (concat "batch_req_" uuid) custom_id error ∷ []);
}

-- The loop, where the source of ids was read `reads` times before: how often it is then, and the
-- tally.
unfoldable pub tally_results : (ℕ → String) → List ItemResult → ℕ → Tally → ℕ × Tally
tally_results uuid_at [] reads t = (reads, t)
tally_results uuid_at ((custom_id, none) ∷ rest) reads t =
    tally_results uuid_at rest reads (tally_result "" (custom_id, none) t)
tally_results uuid_at ((custom_id, some result) ∷ rest) reads t =
    tally_results uuid_at rest (reads + 1) (tally_result (uuid_at reads) (custom_id, some result) t)
