-- ===== src/Tests/Messages.antt =====
-- A batch of Anthropic messages, and the recovery of the batches of both kinds.
use miya_api.Prelude.{
  ℕ, ◌≡◌, refl, true, false, none, some, List, [], ◌∷◌, All, length, ok, Post, all_chars, join,
  starts_with, arith,
}
use miya_api.BTreeMap.{get, insert}
use miya_api.Protocol.Json.{null}
use miya_api.ApiServer.DurableStore.{
  memory, validated, validate_component, memory_key, put_json, put_blob, get_blob, list_all_json,
  collect, under,
}
use miya_api.ApiServer.DurableStore.Objects.{accepts}
use miya_api.ApiServer.JobRuntime
use miya_api.ApiServer.Batch.{OpenAiBatchRecord, openai_batch_job_key, openai_batches_namespace}
use miya_api.ApiServer.Batch.Service.{Service}
use miya_api.ApiServer.Batch.Tally.{ItemResult}
use miya_api.ApiServer.Batch.Anthropic.{
  AnthropicBatchRecord, AnthropicBatchInput, Outside, anthropic_batches_namespace,
  anthropic_batch_inputs_namespace, anthropic_batch_job_key, load_inputs, run_anthropic_batch,
  anthropic_worker,
}
use miya_api.ApiServer.Batch.Anthropic.Totals.{AllCounted, run_anthropic_batch-AllCounted}
use miya_api.ApiServer.Batch.Anthropic.Handlers.{new_batch, anthropic_batches_results}
use miya_api.ApiServer.Batch.Anthropic.Results.{anthropic_batches_results-anthropic_worker}
use miya_api.ApiServer.Batch.Recovery.{Runs, recover_batches, recover_batches-Runs}
use miya_api.Tests.Codecs.{
  batch_codec, messages_codec, messages_writable, read_record, read_pair, pair_up, read_number,
  read_string, read_boolean, read_option, write_option,
}

abbrev inputs : List AnthropicBatchInput
inputs = record { custom_id = "a"; params = null } ∷ record { custom_id = "b"; params = null } ∷ []

-- the first request is answered, the others are cancelled
abbrev cancelled_items : List AnthropicBatchInput → List ItemResult
cancelled_items [] = []
cancelled_items (i ∷ rest) = (i.custom_id, none) ∷ cancelled_items rest

length-cancelled_items : (is : List AnthropicBatchInput) → length (cancelled_items is) ≡ length is
length-cancelled_items [] = refl
length-cancelled_items (i ∷ rest) = omega (arith, length-cancelled_items rest)

abbrev answers : List AnthropicBatchInput → List ItemResult
answers [] = []
answers (i ∷ rest) =
    (i.custom_id, some (ok (record { status_code = 200; body = null }))) ∷ cancelled_items rest

length-answers : (is : List AnthropicBatchInput) → length (answers is) ≡ length is
length-answers [] = refl
length-answers (i ∷ rest) = omega (arith, length-cancelled_items rest)

abbrev outside : Outside
outside = record {
  env = record { time_at = λ n. n; uuid_at = λ n. "u" };
  tenant_hash = λ t. t;
  to_writer = λ v. ok [];
  from_slice = λ bytes. ok inputs;
  run_items = λ is s. (answers is, s);
}

abbrev batch : AnthropicBatchRecord
batch = new_batch "acme" "msgbatch_1" 1 2

-- the service with the input of the batch
abbrev service : Service
service = record {
  durable = (put_blob (λ t. t) anthropic_batch_inputs_namespace "acme" "msgbatch_1" [] memory).1;
  jobs = JobRuntime.new 2;
  reads = 0;
}

inputs_loaded : load_inputs outside batch service ≡ (ok inputs, service)
unfolding load_inputs get_blob put_blob validated validate_component all_chars get insert memory_key
    join
inputs_loaded = refl

run_anthropic_batch-AllCounted_example :
    Post
      (AllCounted outside false batch inputs (outside.run_items inputs service).0)
      (run_anthropic_batch outside false batch service)
run_anthropic_batch-AllCounted_example =
    run_anthropic_batch-AllCounted outside false batch service inputs_loaded
      (λ s. length-answers inputs) (omega arith)

batch_id_accepted : accepts anthropic_batches_namespace batch.id ≡ true
unfolding validate_component all_chars
batch_id_accepted = refl

anthropic_batches_results-anthropic_worker_example :
    (bytes : List ℕ) × ((anthropic_batches_results outside.env
        (λ t. t)
        (λ is. ok [])
        "acme"
        "msgbatch_1"
        (anthropic_worker outside false batch service)).0
      ≡ ok bytes)
anthropic_batches_results-anthropic_worker_example =
    anthropic_batches_results-anthropic_worker outside batch batch_id_accepted messages_writable
      (λ v. ([], refl)) outside.env (λ is. ok []) false service

-- the service with the record of the batch
abbrev stopped : Service
stopped = record service {
  durable = (put_json (λ t. t) anthropic_batches_namespace "acme" "msgbatch_1" batch memory).1;
}

no_openai_batches :
    (list_all_json (λ t. t) {T = OpenAiBatchRecord} openai_batches_namespace stopped.durable).0
    ≡ ok []
unfolding list_all_json under collect put_json validated validate_component all_chars insert
    memory_key join starts_with read_record read_pair pair_up read_number read_string read_boolean
    read_option write_option
no_openai_batches = refl

one_batch : (list_all_json (λ t. t) anthropic_batches_namespace stopped.durable).0 ≡ ok (batch ∷ [])
unfolding list_all_json under collect put_json validated validate_component all_chars insert
    memory_key join starts_with read_record read_pair pair_up read_number read_string read_boolean
    read_option write_option
one_batch = refl

recover_batches-Runs_example :
    All (Runs openai_batch_job_key (recover_batches (λ t. t) stopped).jobs) []
    × All (Runs anthropic_batch_job_key (recover_batches (λ t. t) stopped).jobs) (batch ∷ [])
recover_batches-Runs_example = recover_batches-Runs (λ t. t) stopped no_openai_batches one_batch
