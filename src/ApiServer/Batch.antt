-- ===== src/ApiServer/Batch.antt =====
-- The records of files and batches in crates/api-server/src/lib.rs, and what
-- crates/api-server/src/batch_api.rs reads off them.
pub mod Service
pub mod Input
pub mod Pages
pub mod Tally
pub mod OpenAi
pub mod Anthropic
pub mod Handlers
pub mod Recovery
pub mod Dispatch
use miya_api.Prelude.{
  ℕ, suc, ◌+◌, ◌==◌, leb, Bool, String, Option, none, some, unwrap_or, List, [], ◌∷◌, min, length,
  drop, take, saturating_add, usize_max, u32_max, text_ord, ◌=?◌, join, if◌then◌else◌,
}
use miya_api.Protocol.Json.{Value, null, get, as_u64}
use miya_api.Provider.{ProviderUsage}

abbrev pub max_openai_batch_requests : ℕ
max_openai_batch_requests = 50_000

abbrev pub openai_files_namespace : String
openai_files_namespace = "openai_files"

abbrev pub openai_file_blobs_namespace : String
openai_file_blobs_namespace = "openai_file_blobs"

abbrev pub openai_batches_namespace : String
openai_batches_namespace = "openai_batches"

pub record StoredOpenAiFile : Type 0 where
  pub tenant_id : String
  pub id : String
  pub bytes : ℕ
  pub created_at : ℕ
  pub filename : String
  pub purpose : String
  pub status : String
  pub expires_at : Option ℕ
  pub status_details : Option String

pub record OpenAiBatchRequestCounts : Type 0 where
  pub total : ℕ
  pub completed : ℕ
  pub failed : ℕ

pub record OpenAiBatchRecord : Type 0 where
  pub tenant_id : String
  pub id : String
  pub completion_window : String
  pub created_at : ℕ
  pub endpoint : String
  pub input_file_id : String
  pub status : String
  pub cancelled_at : Option ℕ
  pub cancelling_at : Option ℕ
  pub completed_at : Option ℕ
  pub error_file_id : Option String
  pub errors : Option Value
  pub expired_at : Option ℕ
  pub expires_at : Option ℕ
  pub failed_at : Option ℕ
  pub finalizing_at : Option ℕ
  pub in_progress_at : Option ℕ
  pub metadata : Value
  pub output_file_id : Option String
  pub request_counts : OpenAiBatchRequestCounts
  pub usage : ProviderUsage
  pub cancel_requested : Bool

pub record OpenAiBatchInputLine : Type 0 where
  pub custom_id : String
  pub method : String
  pub url : String
  pub body : Value

pub record BatchDispatchResult : Type 0 where
  pub status_code : ℕ
  pub body : Value

-- `raw.get(first).or_else(|| raw.get(second))` as a number of tokens
unfoldable pub token_count : String → String → Value → ℕ
token_count first second raw =
    let found : Option Value = elim (get first raw) [ some v ↦ some v | none ↦ get second raw ] in
    let tokens : Option ℕ = elim found [ some v ↦ as_u64 v | none ↦ none ] in
    min (unwrap_or tokens 0) u32_max

unfoldable pub accumulate_json_usage : ProviderUsage → Value → ProviderUsage
unfolding token_count
accumulate_json_usage usage value =
    let raw = unwrap_or (get "usage" value) null in
    record {
      input_tokens =
          saturating_add u32_max usage.input_tokens
            (token_count "input_tokens" "prompt_tokens" raw);
      output_tokens =
          saturating_add u32_max usage.output_tokens
            (token_count "output_tokens" "completion_tokens" raw);
    }

unfoldable pub openai_batch_job_key : OpenAiBatchRecord → String
openai_batch_job_key batch = join "openai-batch" (join batch.tenant_id batch.id)

-- `items.iter().position(|item| item.object_id() == after)`
module _ {T : Type 0} (object_id : T → String) where
  unfoldable pub position : String → List T → Option ℕ
  position after [] = none
  position after (x ∷ xs) =
      if object_id x =? after
      then some 0
      else elim (position after xs) [ some i ↦ some (suc i) | none ↦ none ]

  -- where a page begins
  unfoldable pub page_start : Option String → List T → ℕ
  unfolding position
  page_start none items = 0
  page_start (some after) items = elim (position after items) [ some i ↦ i + 1 | none ↦ 0 ]

  unfoldable pub page_after : List T → Option String → ℕ → List T × Bool
  unfolding page_start
  page_after items after limit =
      let start = page_start after items in
      (take limit (drop start items), leb (saturating_add usize_max start limit + 1) (length items))
