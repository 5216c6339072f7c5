-- ===== src/ApiServer/Batch/Anthropic/Handlers.antt =====
-- The handlers of batches of Anthropic messages in crates/api-server/src/batch_api.rs. A handler
-- answers with what it writes as JSON, or with an error response.
use Prim.Native.String.{◌++◌ as concat}
use miya_api.Prelude.{
  ℕ, leb, Bool, true, false, not, ◌&&◌, ◌||◌, String, Option, none, some, is_some, unwrap_or, List,
  [], ◌∷◌, any, take, length, Ordering, Result, ok, err, pure, lift, ◌>>=◌, ◌>>◌, saturating_add,
  u64_max, clamp, is_blank, text_ord, nat_ord, ◌=?◌, then_cmp, if◌then◌else◌,
}
use miya_api.Protocol.Json.{Value, get, as_bool}
use miya_api.ApiServer.DurableStore.{
  Codec, put_json, get_json, list_json, delete_json, put_blob, get_blob, delete_blob,
}
use miya_api.ApiServer.JobRuntime.{register, cancel}
use miya_api.ApiServer.Batch.{page_after, position}
use miya_api.ApiServer.Batch.Service.{Environment, stored, unix_timestamp_secs, new_uuid}
use miya_api.ApiServer.Batch.Handlers.{
  Failure, invalid_request, not_found, conflict, internal, Handler, calling, ignoring,
  reject_unless, found_or, sort_by,
}
use miya_api.ApiServer.Batch.Anthropic.{
  AnthropicBatchRecord, AnthropicBatchInput, default_counts, anthropic_batches_namespace,
  anthropic_batch_inputs_namespace, anthropic_batch_results_namespace, anthropic_batch_job_key,
}

abbrev pub max_anthropic_batch_requests : ℕ
max_anthropic_batch_requests = 100_000

-- `params.get("stream").and_then(as_bool) == Some(true)`
abbrev pub streams : Value → Bool
streams params = elim (get "stream" params) [
  | none ↦ false
  | some v ↦ elim (as_bool v) [ none ↦ false | some b ↦ b ]
]

-- The loop over the requests of a new batch, after requests with the given ids.
unfoldable pub check_requests : List String → List AnthropicBatchInput → Result Failure (Unit {0})
check_requests seen [] = ok tt
check_requests seen (i ∷ rest) =
    let later = check_requests (i.custom_id ∷ seen) rest in
    if is_blank i.custom_id || any (λ id. id =? i.custom_id) seen
    then err (invalid_request "each Message Batch custom_id must be non-empty and unique")
    else if streams i.params
    then err (invalid_request "Message Batch requests cannot stream")
    else later

-- The record of a new batch.
abbrev pub new_batch : String → String → ℕ → ℕ → AnthropicBatchRecord
new_batch tenant_id id created_at requests = record {
  tenant_id = tenant_id;
  id = id;
  created_at = created_at;
  expires_at = saturating_add u64_max created_at 86_400;
  ended_at = none;
  cancel_initiated_at = none;
  archived_at = none;
  processing_status = "in_progress";
  request_counts = record default_counts { processing = requests };
  cancel_requested = false;
}

abbrev pub canceling : ℕ → AnthropicBatchRecord → AnthropicBatchRecord
canceling now batch = record batch {
  cancel_requested = true;
  processing_status = "canceling";
  cancel_initiated_at = some now;
}

-- `state.jobs.cancel`, and the answer
abbrev pub signal_cancel : AnthropicBatchRecord → Handler AnthropicBatchRecord
signal_cancel batch s =
    (ok batch, record s { jobs = (cancel (anthropic_batch_job_key batch) s.jobs).1 })

abbrev pub cmp_batches : AnthropicBatchRecord → AnthropicBatchRecord → Ordering
cmp_batches a b = then_cmp (nat_ord.cmp b.created_at a.created_at) (text_ord.cmp b.id a.id)

-- The truncation of a listing at the item with the id `before_id`.
abbrev pub truncated : Option String → List AnthropicBatchRecord → List AnthropicBatchRecord
truncated none batches = batches
truncated (some before_id) batches =
    elim (position (λ (b : AnthropicBatchRecord). b.id) before_id batches) [
      | none ↦ batches
      | some n ↦ take n batches
    ]

-- `to_vec` is `serde_json::to_vec` of the requests.
module _ (env : Environment) (tenant_hash : String → String)
    (to_vec : List AnthropicBatchInput → Result String (List ℕ))
    ⦃batch_codec : Codec AnthropicBatchRecord⦄ where
  abbrev pub get_batch : String → String → Handler AnthropicBatchRecord
  get_batch tenant_id batch_id = do
    batch ← calling (stored (get_json tenant_hash anthropic_batches_namespace tenant_id batch_id))
    found_or {A = AnthropicBatchRecord} (not_found (concat "message batch not found: " batch_id))
        batch

  -- the record of a new batch: the input goes away again if it cannot be written
  unfoldable pub store_record : String → AnthropicBatchRecord → Handler AnthropicBatchRecord
  store_record tenant_id batch s =
      let written =
        stored (put_json tenant_hash anthropic_batches_namespace tenant_id batch.id batch) s in
      elim written.0 [
        | ok u ↦ (
          ok batch,
          record written.1 { jobs = (register (anthropic_batch_job_key batch) written.1.jobs).1 },
        )
        | err e ↦ (
          err (internal e),
          (stored (delete_blob tenant_hash anthropic_batch_inputs_namespace tenant_id batch.id)
              written.1).1,
        )
      ]

  unfoldable pub anthropic_batches_create :
      String → List AnthropicBatchInput → Handler AnthropicBatchRecord
  unfolding check_requests
  anthropic_batches_create tenant_id requests = do
    reject_unless (leb 1 (length requests) && leb (length requests) max_anthropic_batch_requests)
        (invalid_request "requests must contain between 1 and 100000 items")
    lift (check_requests [] requests)
    created_at ← calling (unix_timestamp_secs env)
    uuid ← calling (new_uuid env)
    input ← calling (λ s. (to_vec requests, s))
    calling (
        stored (
          put_blob tenant_hash anthropic_batch_inputs_namespace tenant_id (concat "msgbatch_" uuid)
            input))
    store_record tenant_id
        (new_batch tenant_id (concat "msgbatch_" uuid) created_at (length requests))

  unfoldable pub anthropic_batches_retrieve : String → String → Handler AnthropicBatchRecord
  anthropic_batches_retrieve tenant_id batch_id = get_batch tenant_id batch_id

  unfoldable pub anthropic_batches_list :
      String → Option String → Option String → Option ℕ → Handler (List AnthropicBatchRecord × Bool)
  unfolding sort_by page_after position
  anthropic_batches_list tenant_id after_id before_id limit = do
    reject_unless (not (is_some after_id && is_some before_id))
        (invalid_request "after_id and before_id cannot be used together")
    batches ← calling (
        stored
          (list_json tenant_hash {T = AnthropicBatchRecord} anthropic_batches_namespace tenant_id))
    pure (
        page_after (λ (b : AnthropicBatchRecord). b.id)
          (truncated before_id (sort_by cmp_batches batches)) after_id
          (clamp (unwrap_or limit 20) 1 1000))

  unfoldable pub anthropic_batches_results : String → String → Handler (List ℕ)
  anthropic_batches_results tenant_id batch_id = do
    batch ← get_batch tenant_id batch_id
    reject_unless (batch.processing_status =? "ended")
        (conflict (concat "message batch " (concat batch_id " has not ended")))
    bytes ←
        calling (stored (get_blob tenant_hash anthropic_batch_results_namespace tenant_id batch_id))
    found_or (internal (concat "results missing for message batch " batch_id)) bytes

  unfoldable pub anthropic_batches_cancel : String → String → Handler AnthropicBatchRecord
  anthropic_batches_cancel tenant_id batch_id = do
    batch ← get_batch tenant_id batch_id
    reject_unless (not (batch.processing_status =? "ended"))
        (invalid_request (concat "message batch " (concat batch_id " has already ended")))
    now ← calling (unix_timestamp_secs env)
    calling (
        stored (
          put_json tenant_hash anthropic_batches_namespace tenant_id batch_id
            (canceling now batch)))
    signal_cancel (canceling now batch)

  unfoldable pub anthropic_batches_delete : String → String → Handler (Unit {0})
  anthropic_batches_delete tenant_id batch_id = do
    batch ← get_batch tenant_id batch_id
    reject_unless (batch.processing_status =? "ended")
        (conflict "Message Batches can only be deleted after processing has ended")
    deleted ←
        calling (stored (delete_json tenant_hash anthropic_batches_namespace tenant_id batch_id))
    ignoring (stored (delete_blob tenant_hash anthropic_batch_inputs_namespace tenant_id batch_id))
    ignoring (stored (delete_blob tenant_hash anthropic_batch_results_namespace tenant_id batch_id))
