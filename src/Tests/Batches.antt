-- ===== src/Tests/Batches.antt =====
-- A batch of one request, its file, and the pages of a listing.
use miya_api.Prelude.{
  suc, ◌+◌, ◌≤◌, ◌≡◌, refl, true, false, String, none, some, List, [], ◌∷◌, length, Result, ok,
  Post, outcome_path, nat_ord, text_ord, is_blank, all_chars, arith,
}
use miya_api.Protocol.Json.{null}
use miya_api.Provider.{default_usage}
use miya_api.ApiServer.DurableStore.{memory, validated, validate_component, put_json, get_json}
use miya_api.ApiServer.DurableStore.Objects.{
  accepts, put_json-accepted, get_json-put_json, get_json_state,
}
use miya_api.ApiServer.JobRuntime
use miya_api.ApiServer.Batch.{OpenAiBatchRecord, OpenAiBatchInputLine, openai_batches_namespace}
use miya_api.ApiServer.Batch.Service.{Service, Environment}
use miya_api.ApiServer.Batch.Input.{
  batch_inputs, lines, read_inputs, read_input, check_input, eq_ignore_ascii_case,
}
use miya_api.ApiServer.Batch.Input.Checks.{Accepted, batch_inputs-Accepted}
use miya_api.ApiServer.Batch.Tally.{ItemResult}
use miya_api.ApiServer.Batch.Pages.{pages, pages-all}
use miya_api.ApiServer.Batch.OpenAi.{Outside, run_openai_batch, batch_worker}
use miya_api.ApiServer.Batch.OpenAi.Counts.{Ends, Accounted, run_openai_batch-Counted}
use miya_api.ApiServer.Batch.OpenAi.Ending.{Over, batch_worker-Over}
use miya_api.ApiServer.Batch.Handlers.{openai_batches_cancel, cancelling, files_create}
use miya_api.ApiServer.Batch.Handlers.Cancel.{cancelled_worker}
use miya_api.ApiServer.Batch.Handlers.Files.{Readable, files_content-files_create}
use miya_api.Tests.Digests.{digest}
use miya_api.Tests.Codecs.{stored_file_codec, batch_codec, batch_writable}

abbrev request : String → OpenAiBatchInputLine
request custom_id = record {
  custom_id = custom_id;
  method = "post";
  url = "/v1/responses";
  body = null;
}

-- a line is the id of its request
abbrev by_id : String → Result String OpenAiBatchInputLine
by_id line = ok (request line)

abbrev two_requests : List OpenAiBatchInputLine
two_requests = request "a" ∷ request "b" ∷ []

two_lines : batch_inputs by_id "/v1/responses" "a\n\nb\n" ≡ ok two_requests
unfolding batch_inputs lines read_inputs read_input check_input eq_ignore_ascii_case is_blank
two_lines = refl

batch_inputs-Accepted_example : (1 ≤ length two_requests) × Accepted "/v1/responses" two_requests
batch_inputs-Accepted_example = batch_inputs-Accepted by_id "/v1/responses" "a\n\nb\n" two_lines

abbrev answered : List OpenAiBatchInputLine → List ItemResult
answered [] = []
answered (i ∷ rest) =
    (i.custom_id, some (ok (record { status_code = 200; body = null }))) ∷ answered rest

length-answered : (is : List OpenAiBatchInputLine) → length (answered is) ≡ length is
length-answered [] = refl
length-answered (i ∷ rest) = omega (arith, length-answered rest)

abbrev env : Environment
env = record { time_at = λ n. n; uuid_at = λ n. "u" }

abbrev outside : Outside
outside = record {
  env = env;
  tenant_hash = digest;
  to_writer = λ v. ok [];
  from_utf8 = λ bytes. ok "a\n\nb\n";
  from_str = by_id;
  run_items = λ inputs s. (answered inputs, s);
}

abbrev batch : OpenAiBatchRecord
batch = record {
  tenant_id = "acme";
  id = "batch_1";
  completion_window = "24h";
  created_at = 1;
  endpoint = "/v1/responses";
  input_file_id = "file-1";
  status = "validating";
  cancelled_at = none;
  cancelling_at = none;
  completed_at = none;
  error_file_id = none;
  errors = none;
  expired_at = none;
  expires_at = none;
  failed_at = none;
  finalizing_at = none;
  in_progress_at = none;
  metadata = null;
  output_file_id = none;
  request_counts = record { total = 0; completed = 0; failed = 0 };
  usage = default_usage;
  cancel_requested = false;
}

abbrev service : Service
service = record { durable = memory; jobs = JobRuntime.new 2; reads = 0 }

run_openai_batch-Counted_example :
    Post
      (Accounted outside false batch service)
      (run_openai_batch outside false false batch service)
run_openai_batch-Counted_example =
    run_openai_batch-Counted outside false batch service (λ is s. length-answered is) (omega arith)
      refl

batch_id_accepted : accepts openai_batches_namespace batch.id ≡ true
unfolding validate_component all_chars
batch_id_accepted = refl

batch_worker-Over_example : Over outside batch tt (batch_worker outside false false batch service)
batch_worker-Over_example =
    batch_worker-Over outside batch batch_id_accepted batch_writable false false service

abbrev names : List String
names = "a" ∷ "b" ∷ "c" ∷ []

pages-all_example : pages (λ (s : String). s) (length names + 1) names none (suc 1) ≡ names
pages-all_example =
    pages-all (λ (s : String). s) 1 names ((refl, (refl, tt)), ((refl, tt), (tt, tt))) (omega arith)

-- the tenants' names are their keys here
abbrev same : String → String
same t = t

-- the service after the batch is stored
abbrev holding : Service
holding = record service {
  durable = (put_json same openai_batches_namespace "acme" "batch_1" batch memory).1;
}

batch_held :
    get_json same openai_batches_namespace "acme" "batch_1" holding.durable
    ≡ (ok (some batch), holding.durable)
batch_held =
    let (v, written) = batch_writable batch in
    outcome_path _
      (get_json-put_json same openai_batches_namespace "acme" "batch_1" batch memory tt (
        put_json-accepted same openai_batches_namespace "acme" "batch_1" batch memory v
          batch_id_accepted written))
      (get_json_state OpenAiBatchRecord same openai_batches_namespace "acme" "batch_1"
        holding.durable)

batch_cancelled :
    (openai_batches_cancel env same "acme" "batch_1" holding).0 ≡ ok (cancelling 0 batch)
unfolding openai_batches_cancel put_json validated validate_component all_chars
batch_cancelled = rw batch_held refl

cancelled_worker_example :
    Post
      (Ends outside "cancelled" (cancelling 0 batch))
      (run_openai_batch outside false false (cancelling 0 batch) service)
cancelled_worker_example =
    cancelled_worker same "acme" "batch_1" env outside holding batch_cancelled false false service

files_content-files_create_example :
    Post (Readable env same "acme" (0 ∷ 10 ∷ [])) (
      files_create env same "acme"
        (some "batch")
        (some "a.jsonl")
        (some (0 ∷ 10 ∷ []))
        none
        service)
files_content-files_create_example =
    files_content-files_create env same "acme" (some "batch") (some "a.jsonl") (0 ∷ 10 ∷ []) none
      service
