-- ===== src/ApiServer/Batch/OpenAi.antt =====
-- The run of a batch of OpenAI requests in crates/api-server/src/batch_api.rs, from its record to
-- the record that is stored at its end.
pub mod Counts
pub mod Ending
use Prim.Native.String.{◌++◌ as concat}
use miya_api.Prelude.{
  ℕ, ◌+◌, leb, Bool, true, false, ◌||◌, String, Option, none, some, List, [], ◌∷◌, length, Result,
  ok, err, Method, pure, fail, lift, ◌>>=◌, ◌>>◌, continue, saturating_add, u64_max, text_ord, ◌=?◌,
  if◌then◌else◌,
}
use miya_api.Protocol.Json.{Value, null, string, array, object, Values, nil, cons, end, field}
use miya_api.ApiServer.DurableStore.{Memory, Codec, put_json, get_json, get_blob}
use miya_api.ApiServer.Batch.{
  StoredOpenAiFile, OpenAiBatchRecord, OpenAiBatchRequestCounts, OpenAiBatchInputLine,
  openai_files_namespace, openai_file_blobs_namespace, openai_batches_namespace,
}
use miya_api.ApiServer.Batch.Service.{
  Service, Environment, stored, unix_timestamp_secs, new_uuid, write_openai_batch_output_file,
}
use miya_api.ApiServer.Batch.Input.{batch_inputs}
use miya_api.ApiServer.Batch.Tally.{ItemResult, Tally, first_tally, tally_results, count_failed}

-- `ok_or_else(|| message)?`
abbrev pub found : {S A : Type 0} → String → Option A → Method S String A
found message none = fail message
found message (some a) = pure a

abbrev pub require : {S : Type 0} → Bool → String → Method S String (Unit {0})
require true message = pure tt
require false message = fail message

-- What the run of a batch uses of other code: the sources of bytes and of ids, `from_utf8` and
-- serde_json with their errors as texts, the digest of the tenant, and the requests themselves,
-- whose results come in any order.
pub record Outside : Type 0 where
  pub env : Environment
  pub tenant_hash : String → String
  pub to_writer : Value → Result String (List ℕ)
  pub from_utf8 : List ℕ → Result String String
  pub from_str : String → Result String OpenAiBatchInputLine
  pub run_items : List OpenAiBatchInputLine → Service → List ItemResult × Service

-- `from_utf8(bytes).map_err(…)`
abbrev pub text_of : Result String String → Result String String
text_of (ok text) = ok text
text_of (err error) = err (concat "batch input must be UTF-8 JSONL: " error)

-- The record of a batch in its states.
abbrev pub in_progress : ℕ → ℕ → OpenAiBatchRecord → OpenAiBatchRecord
in_progress now total batch = record batch {
  status = "in_progress";
  in_progress_at = some now;
  request_counts = record batch.request_counts { total = total };
}

abbrev pub counted : Tally → OpenAiBatchRecord → OpenAiBatchRecord
counted t batch = record batch {
  request_counts = count_failed t.cancelled t.request_counts;
  usage = t.usage;
}

abbrev pub finalizing : ℕ → OpenAiBatchRecord → OpenAiBatchRecord
finalizing now batch = record batch { status = "finalizing"; finalizing_at = some now }

abbrev pub completed_with :
    Option String → Option String → ℕ → OpenAiBatchRecord → OpenAiBatchRecord
completed_with output errors now batch = record batch {
  output_file_id = output;
  error_file_id = errors;
  status = "completed";
  completed_at = some now;
}

abbrev pub cancelled_with :
    Option String → Option String → ℕ → OpenAiBatchRecord → OpenAiBatchRecord
cancelled_with output errors now batch = record batch {
  output_file_id = output;
  error_file_id = errors;
  status = "cancelled";
  cancelled_at = some now;
}

abbrev pub invalid_batch_file : String → Value
invalid_batch_file error = object (
    field "code" (string "invalid_batch_file") (
      field "message" (string error)
        (field "param" (string "input_file_id") (field "line" null end))))

abbrev pub failed_with : String → Option (Option String) → ℕ → OpenAiBatchRecord → OpenAiBatchRecord
failed_with error file now batch = record batch {
  status = "failed";
  failed_at = some now;
  errors = some (
      object (
        field "object" (string "list")
          (field "data" (array (cons (invalid_batch_file error) nil)) end)));
  error_file_id = elim file [ none ↦ batch.error_file_id | some id ↦ id ];
}

abbrev pub ok_value : {A : Type 0} → Result String A → Option A
ok_value (ok a) = some a
ok_value (err e) = none

module _ (o : Outside) ⦃file_codec : Codec StoredOpenAiFile⦄
    ⦃batch_codec : Codec OpenAiBatchRecord⦄ where
  unfoldable pub put_batch : OpenAiBatchRecord → Method Service String (Unit {0})
  put_batch batch =
      stored (put_json o.tenant_hash openai_batches_namespace batch.tenant_id batch.id batch)

  abbrev pub write_file :
      OpenAiBatchRecord → String → List Value → Method Service String (Option String)
  write_file batch kind lines =
      write_openai_batch_output_file o.to_writer o.env o.tenant_hash batch.tenant_id batch.id kind
        lines

  unfoldable pub cancel_openai_batch :
      OpenAiBatchRecord → List Value → List Value → Method Service String (Unit {0})
  cancel_openai_batch batch output_lines error_lines = do
    output ← write_file batch "output" output_lines
    errors ← write_file batch "errors" error_lines
    now ← unix_timestamp_secs o.env
    put_batch (cancelled_with output errors now batch)

  -- the end of a run that was not cancelled
  unfoldable pub complete_openai_batch :
      OpenAiBatchRecord → List Value → List Value → Method Service String (Unit {0})
  complete_openai_batch batch output_lines error_lines = do
    started ← unix_timestamp_secs o.env
    put_batch (finalizing started batch)
    output ← write_file batch "output" output_lines
    errors ← write_file batch "errors" error_lines
    now ← unix_timestamp_secs o.env
    put_batch (completed_with output errors now (finalizing started batch))

  -- what follows the results, where the token was cancelled or not
  unfoldable pub finish_openai_batch :
      OpenAiBatchRecord → Bool → Tally → Method Service String (Unit {0})
  finish_openai_batch batch cancelled t =
      if cancelled || batch.cancel_requested || leb 1 t.cancelled
      then cancel_openai_batch (counted t batch) t.output_lines t.error_lines
      else complete_openai_batch (counted t batch) t.output_lines t.error_lines

  -- the reading of the input
  unfoldable pub load_inputs : OpenAiBatchRecord → Method Service String (List OpenAiBatchInputLine)
  load_inputs batch = do
    file ←
        stored (get_json o.tenant_hash openai_files_namespace batch.tenant_id batch.input_file_id)
    file ← found {A = StoredOpenAiFile} (concat "input file not found: " batch.input_file_id) file
    require (file.purpose =? "batch") "input file purpose must be batch"
    bytes ←
        stored
          (get_blob o.tenant_hash openai_file_blobs_namespace batch.tenant_id batch.input_file_id)
    bytes ← found "input file content is missing" bytes
    text ← lift (text_of (o.from_utf8 bytes))
    lift (batch_inputs o.from_str batch.endpoint text)

  -- the requests and the loop over their results
  unfoldable pub run_requests :
      OpenAiBatchRecord → List OpenAiBatchInputLine → Service → Tally × Service
  run_requests batch inputs s =
      let (results, after) = o.run_items inputs s in
      let (reads, t) =
        tally_results o.env.uuid_at results after.reads (first_tally batch.request_counts) in
      (t, record after { reads = reads })

  -- a run that was not cancelled at its start
  unfoldable pub process_openai_batch : Bool → OpenAiBatchRecord → Method Service String (Unit {0})
  process_openai_batch last batch = do
    inputs ← load_inputs batch
    now ← unix_timestamp_secs o.env
    put_batch (in_progress now (length inputs) batch)
    t ← λ s. (
      ok (run_requests (in_progress now (length inputs) batch) inputs s).0,
      (run_requests (in_progress now (length inputs) batch) inputs s).1,
    )
    finish_openai_batch (in_progress now (length inputs) batch) last t

  -- `first` and `last` tell whether the token was cancelled at the start and after the results.
  unfoldable pub run_openai_batch :
      Bool → Bool → OpenAiBatchRecord → Method Service String (Unit {0})
  run_openai_batch first last batch =
      if batch.cancel_requested || first
      then cancel_openai_batch batch [] []
      else process_openai_batch last batch

  -- the writes of a failed batch, whose own failures are ignored
  unfoldable pub fail_openai_batch : OpenAiBatchRecord → String → Service → Service
  fail_openai_batch batch error s =
      let now = o.env.time_at s.reads in
      let file =
        write_file batch "validation-errors"
          (object (field "error" (invalid_batch_file error) end) ∷ [])
          (record s { reads = s.reads + 1 }) in
      (put_batch (failed_with error (ok_value file.0) now batch) file.1).1

  -- the worker that `spawn_openai_batch` starts
  unfoldable pub batch_worker : Bool → Bool → OpenAiBatchRecord → Service → Service
  batch_worker first last batch s =
      let run = run_openai_batch first last batch s in
      elim run.0 [ ok u ↦ run.1 | err error ↦ fail_openai_batch batch error run.1 ]
