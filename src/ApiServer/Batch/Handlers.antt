-- ===== src/ApiServer/Batch/Handlers.antt =====
-- The handlers of files and of batches of OpenAI requests in crates/api-server/src/batch_api.rs. A
-- handler answers with what it writes as JSON, or with an error response.
pub mod Cancel
pub mod Files
use Prim.Native.String.{◌++◌ as concat}
use miya_api.Prelude.{
  ℕ, ◌+◌, leb, Bool, true, false, not, ◌&&◌, ◌||◌, String, Option, none, some, unwrap_or, List, [],
  ◌∷◌, map, any, filter, length, Ordering, Result, ok, err, Method, Post, pure, fail, ◌>>=◌, ◌>>◌,
  continue, saturating_add, u64_max, clamp, is_blank, text_ord, nat_ord, ◌=?◌, then_cmp,
  if◌then◌else◌,
}
use miya_api.Protocol.Json.{Value, null, object, end, get, as_str, as_u64}
use miya_api.Provider.{default_usage}
use miya_api.ApiServer.DurableStore.{
  Memory, Codec, put_json, get_json, list_json, delete_json, put_blob, get_blob, delete_blob,
}
use miya_api.ApiServer.JobRuntime.{JobRuntime, register, cancel}
use miya_api.ApiServer.Batch.{
  StoredOpenAiFile, OpenAiBatchRecord, openai_files_namespace, openai_file_blobs_namespace,
  openai_batches_namespace, openai_batch_job_key, page_after,
}
use miya_api.ApiServer.Batch.Service.{Service, Environment, stored, unix_timestamp_secs, new_uuid}

-- An error response.
pub data Failure : Type 0 where
  invalid_request : String → Failure
  not_found : String → Failure
  conflict : String → Failure
  internal : String → Failure

abbrev pub Handler : Type 0 → Type 0
Handler A = Method Service Failure A

-- the error of a call as an internal error of the handler
abbrev pub recast : {A : Type 0} → Result String A × Service → Result Failure A × Service
recast (ok a, s) = (ok a, s)
recast (err e, s) = (err (internal e), s)

abbrev pub calling : {A : Type 0} → Method Service String A → Handler A
calling method s = recast (method s)

-- A call whose result is not looked at.
abbrev pub ignoring : {A : Type 0} → Method Service String A → Handler (Unit {0})
ignoring method s = (ok tt, (method s).1)

abbrev pub reject_unless : Bool → Failure → Handler (Unit {0})
reject_unless true failure = pure tt
reject_unless false failure = fail failure

abbrev pub found_or : {A : Type 0} → Failure → Option A → Handler A
found_or failure none = fail failure
found_or failure (some a) = pure a

module _ {A : Type 0} (Q : A → Service → Type 0) where
  pub recast-Post : (x : Result String A × Service) → Post Q x → Post Q (recast x)
  recast-Post (ok a, s) h = h
  recast-Post (err e, s) h = tt

pub record OpenAiBatchCreateRequest : Type 0 where
  pub completion_window : String
  pub endpoint : String
  pub input_file_id : String
  pub metadata : Value
  pub output_expires_after : Value

abbrev pub is_null : Value → Bool
is_null null = true
is_null _ = false

abbrev pub known_endpoint : String → Bool
known_endpoint e = e =? "/v1/chat/completions" || e =? "/v1/completions" || e =? "/v1/responses"

-- `value.get(key).and_then(as_str) == Some(text)`
abbrev pub text_field_is : String → String → Value → Bool
text_field_is key text value = elim (get key value) [
  | none ↦ false
  | some v ↦ elim (as_str v) [ none ↦ false | some t ↦ t =? text ]
]

abbrev pub number_field : String → Value → Option ℕ
number_field key value = elim (get key value) [ none ↦ none | some v ↦ as_u64 v ]

-- The record of a new batch.
abbrev pub new_batch : String → String → ℕ → OpenAiBatchCreateRequest → OpenAiBatchRecord
new_batch tenant_id id created_at request = record {
  tenant_id = tenant_id;
  id = id;
  completion_window = request.completion_window;
  created_at = created_at;
  endpoint = request.endpoint;
  input_file_id = request.input_file_id;
  status = "validating";
  cancelled_at = none;
  cancelling_at = none;
  completed_at = none;
  error_file_id = none;
  errors = none;
  expired_at = none;
  expires_at = elim (number_field "seconds" request.output_expires_after) [
    | none ↦ none
    | some ttl ↦ some (saturating_add u64_max created_at ttl)
  ];
  failed_at = none;
  finalizing_at = none;
  in_progress_at = none;
  metadata = if is_null request.metadata then object end else request.metadata;
  output_file_id = none;
  request_counts = record { total = 0; completed = 0; failed = 0 };
  usage = default_usage;
  cancel_requested = false;
}

abbrev pub terminal : String → Bool
terminal status =
    status =? "completed" || status =? "failed" || status =? "cancelled" || status =? "expired"

abbrev pub active : String → Bool
active status =
    status =? "validating"
    || status =? "in_progress"
    || status =? "finalizing"
    || status =? "cancelling"

abbrev pub cancelling : ℕ → OpenAiBatchRecord → OpenAiBatchRecord
cancelling now batch = record batch {
  cancel_requested = true;
  status = "cancelling";
  cancelling_at = some now;
}

-- `state.jobs.cancel`, and the answer
abbrev pub signal_cancel : OpenAiBatchRecord → Handler OpenAiBatchRecord
signal_cancel batch s =
    (ok batch, record s { jobs = (cancel (openai_batch_job_key batch) s.jobs).1 })

-- `sort_by` with the newest first, and the greater id first at the same time
unfoldable pub insert_by : {T : Type 0} → (T → T → Ordering) → T → List T → List T
insert_by cmp x [] = x ∷ []
insert_by cmp x (y ∷ ys) = elim (cmp x y) [ Ordering.gt ↦ y ∷ insert_by cmp x ys | _ ↦ x ∷ y ∷ ys ]

unfoldable pub sort_by : {T : Type 0} → (T → T → Ordering) → List T → List T
unfolding insert_by
sort_by cmp [] = []
sort_by cmp (x ∷ xs) = insert_by cmp x (sort_by cmp xs)

abbrev pub cmp_files : StoredOpenAiFile → StoredOpenAiFile → Ordering
cmp_files a b = then_cmp (nat_ord.cmp a.created_at b.created_at) (text_ord.cmp a.id b.id)

abbrev pub cmp_batches : OpenAiBatchRecord → OpenAiBatchRecord → Ordering
cmp_batches a b = then_cmp (nat_ord.cmp b.created_at a.created_at) (text_ord.cmp b.id a.id)

-- `files.retain`, where a purpose is asked for
abbrev pub of_purpose : Option String → List StoredOpenAiFile → List StoredOpenAiFile
of_purpose none files = files
of_purpose (some p) files = filter (λ (f : StoredOpenAiFile). f.purpose =? p) files

-- `option.as_deref() == Some(text)`
abbrev pub is_some_text : String → Option String → Bool
is_some_text text none = false
is_some_text text (some t) = t =? text

abbrev pub known_purpose : String → Bool
known_purpose p =
    p =? "assistants"
    || p =? "batch"
    || p =? "fine-tune"
    || p =? "vision"
    || p =? "user_data"
    || p =? "evals"

abbrev pub max_openai_batch_file_bytes : ℕ
max_openai_batch_file_bytes = 209_715_200

-- `filter(|text| !text.trim().is_empty())`
abbrev pub not_blank : Option String → Option String
not_blank none = none
not_blank (some t) = if is_blank t then none else some t

-- The record of an upload: batch files expire after thirty days unless the request says otherwise.
abbrev pub uploaded : String → String → ℕ → String → String → ℕ → Option ℕ → StoredOpenAiFile
uploaded tenant_id id bytes filename purpose created_at expires_after = record {
  tenant_id = tenant_id;
  id = id;
  bytes = bytes;
  created_at = created_at;
  filename = filename;
  purpose = purpose;
  status = "processed";
  expires_at = elim expires_after [
    | some seconds ↦ some (saturating_add u64_max created_at seconds)
    | none ↦ if purpose =? "batch" then some (saturating_add u64_max created_at 2_592_000) else none
  ];
  status_details = none;
}

module _ (env : Environment) (tenant_hash : String → String) ⦃file_codec : Codec StoredOpenAiFile⦄
    ⦃batch_codec : Codec OpenAiBatchRecord⦄ where
  abbrev pub get_batch : String → String → Handler (Option OpenAiBatchRecord)
  get_batch tenant_id batch_id =
      calling (stored (get_json tenant_hash openai_batches_namespace tenant_id batch_id))

  abbrev pub get_file : String → String → Handler (Option StoredOpenAiFile)
  get_file tenant_id file_id =
      calling (stored (get_json tenant_hash openai_files_namespace tenant_id file_id))

  unfoldable pub openai_batches_create :
      String → OpenAiBatchCreateRequest → Handler OpenAiBatchRecord
  openai_batches_create tenant_id request = do
    reject_unless (request.completion_window =? "24h")
        (invalid_request "completion_window must be 24h")
    reject_unless (known_endpoint request.endpoint) (
        invalid_request (
          concat "batch endpoint " (concat request.endpoint " is not implemented by this gateway")))
    reject_unless
        (is_null request.output_expires_after
          || text_field_is "anchor" "created_at" request.output_expires_after)
        (invalid_request "output_expires_after.anchor must be created_at")
    file ← get_file tenant_id request.input_file_id
    file ←
        found_or {A = StoredOpenAiFile}
          (invalid_request (concat "input_file_id not found: " request.input_file_id)) file
    reject_unless (file.purpose =? "batch")
        (invalid_request "input_file_id must reference a file with purpose=batch")
    created_at ← calling (unix_timestamp_secs env)
    uuid ← calling (new_uuid env)
    let batch = new_batch tenant_id (concat "batch_" uuid) created_at request
    calling (
        stored
          (put_json tenant_hash openai_batches_namespace tenant_id (concat "batch_" uuid) batch))
    λ s. (ok batch, record s { jobs = (register (openai_batch_job_key batch) s.jobs).1 })

  unfoldable pub openai_batches_retrieve : String → String → Handler OpenAiBatchRecord
  openai_batches_retrieve tenant_id batch_id = do
    batch ← get_batch tenant_id batch_id
    found_or (not_found (concat "batch not found: " batch_id)) batch

  unfoldable pub openai_batches_list :
      String → Option String → Option ℕ → Handler (List OpenAiBatchRecord × Bool)
  unfolding sort_by page_after
  openai_batches_list tenant_id after limit = do
    batches ←
        calling (
          stored (list_json tenant_hash {T = OpenAiBatchRecord} openai_batches_namespace tenant_id))
    pure (
        page_after (λ (b : OpenAiBatchRecord). b.id) (sort_by cmp_batches batches) after
          (clamp (unwrap_or limit 20) 1 100))

  unfoldable pub openai_batches_cancel : String → String → Handler OpenAiBatchRecord
  openai_batches_cancel tenant_id batch_id = do
    batch ← get_batch tenant_id batch_id
    batch ← found_or {A = OpenAiBatchRecord} (not_found (concat "batch not found: " batch_id)) batch
    reject_unless (not (terminal batch.status))
        (invalid_request (concat "batch " (concat batch_id " is already terminal")))
    now ← calling (unix_timestamp_secs env)
    calling (
        stored
          (put_json tenant_hash openai_batches_namespace tenant_id batch_id (cancelling now batch)))
    signal_cancel (cancelling now batch)

  -- the record of an upload: the blob goes away again if it cannot be written
  unfoldable pub store_record : String → StoredOpenAiFile → Handler StoredOpenAiFile
  store_record tenant_id file s =
      let written = stored (put_json tenant_hash openai_files_namespace tenant_id file.id file) s in
      elim written.0 [
        | ok u ↦ (ok file, written.1)
        | err e ↦ (
          err (internal e),
          (stored (delete_blob tenant_hash openai_file_blobs_namespace tenant_id file.id)
              written.1).1,
        )
      ]

  -- the writes of an upload
  unfoldable pub store_upload : String → StoredOpenAiFile → List ℕ → Handler StoredOpenAiFile
  store_upload tenant_id file bytes = do
    calling (stored (put_blob tenant_hash openai_file_blobs_namespace tenant_id file.id bytes))
    store_record tenant_id file

  -- an upload with the fields of its form
  unfoldable pub files_create :
      String → Option String → Option String → Option (List ℕ) → Option ℕ → Handler StoredOpenAiFile
  files_create tenant_id purpose filename file_bytes expires_after = do
    purpose ← found_or (invalid_request "file upload requires purpose") (not_blank purpose)
    reject_unless (known_purpose purpose)
        (invalid_request (concat "unsupported file purpose: " purpose))
    filename ← found_or (invalid_request "file upload requires a filename") (not_blank filename)
    bytes ← found_or (invalid_request "file upload requires file content") file_bytes
    reject_unless (not (purpose =? "batch" && leb (max_openai_batch_file_bytes + 1) (length bytes)))
        (invalid_request "batch files must not exceed 209715200 bytes")
    created_at ← calling (unix_timestamp_secs env)
    uuid ← calling (new_uuid env)
    store_upload tenant_id
        (uploaded tenant_id (concat "file-" uuid) (length bytes) filename purpose created_at
          expires_after)
        bytes

  unfoldable pub files_retrieve : String → String → Handler StoredOpenAiFile
  files_retrieve tenant_id file_id = do
    file ← get_file tenant_id file_id
    found_or (not_found (concat "file not found: " file_id)) file

  -- the file with its bytes
  unfoldable pub files_content : String → String → Handler (StoredOpenAiFile × List ℕ)
  files_content tenant_id file_id = do
    file ← get_file tenant_id file_id
    file ← found_or {A = StoredOpenAiFile} (not_found (concat "file not found: " file_id)) file
    bytes ← calling (stored (get_blob tenant_hash openai_file_blobs_namespace tenant_id file_id))
    bytes ← found_or (internal (concat "file content missing: " file_id)) bytes
    pure (file, bytes)

  unfoldable pub files_list :
      String
      → Option String
      → Option String
      → Option String
      → Option ℕ
      → Handler (List StoredOpenAiFile × Bool)
  unfolding sort_by page_after
  files_list tenant_id purpose order after limit = do
    files ←
        calling
          (stored (list_json tenant_hash {T = StoredOpenAiFile} openai_files_namespace tenant_id))
    let kept = of_purpose purpose files
    pure (
        page_after (λ (f : StoredOpenAiFile). f.id)
          (if is_some_text "asc" order
            then sort_by cmp_files kept
            else sort_by (λ a b. cmp_files b a) kept)
          after (clamp (unwrap_or limit 10_000) 1 10_000))

  -- The file is the input of a batch that is not over.
  abbrev pub uses : String → OpenAiBatchRecord → Bool
  uses file_id b = b.input_file_id =? file_id && active b.status

  unfoldable pub files_delete : String → String → Handler (Unit {0})
  files_delete tenant_id file_id = do
    batches ←
        calling (
          stored (list_json tenant_hash {T = OpenAiBatchRecord} openai_batches_namespace tenant_id))
    reject_unless (not (any (uses file_id) batches))
        (conflict (concat "file " (concat file_id " is still used by an active batch")))
    deleted ← calling (stored (delete_json tenant_hash openai_files_namespace tenant_id file_id))
    reject_unless deleted (not_found (concat "file not found: " file_id))
    ignoring (stored (delete_blob tenant_hash openai_file_blobs_namespace tenant_id file_id))
