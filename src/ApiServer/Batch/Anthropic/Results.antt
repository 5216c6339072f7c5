-- ===== src/ApiServer/Batch/Anthropic/Results.antt =====
-- The results of a batch of Anthropic messages after its worker.
use miya_api.Prelude.{
  ℕ, ◌+◌, ◌≡◌, refl, String, Bool, true, some, List, [], ◌∷◌, ◌++◌, Result, Result-cases, ok, err,
  Post, Post-ok, Post-of_ok, Post-then, Post-continue, Bool-cases, inl, inr, ◌||◌, text_ord,
  outcome_path, max, ◌>>=◌, ap, all_chars,
}
use miya_api.Protocol.Json.{Value}
use miya_api.ApiServer.DurableStore.{
  Codec, get_json, get_blob, put_blob, put_json, validate_component,
}
use miya_api.ApiServer.DurableStore.Objects.{
  accepts, accepts-valid, get_json-put_json, put_json-accepted, get_json_state,
}
use miya_api.ApiServer.DurableStore.Blobs.{
  get_blob-put_blob, get_blob-put_json, put_blob-accepts, put_blob_valid,
}
use miya_api.ApiServer.Batch.Service.{
  Service, Environment, stored, unix_timestamp_secs, jsonl_bytes, write_jsonl_blob,
}
use miya_api.ApiServer.Batch.Anthropic.{
  AnthropicBatchRecord, AnthropicBatchRequestCounts, AnthropicBatchInput, Outside, ended,
  anthropic_batches_namespace, anthropic_batch_results_namespace, write_results, load_inputs,
  put_batch, end_batch, finish_cancelled_anthropic_batch, run_requests, process_inputs,
  run_anthropic_batch, fail_anthropic_batch, anthropic_worker, result_line, errored_with, api_error,
}
use miya_api.ApiServer.Batch.Anthropic.Totals.{stored_batch}
use miya_api.ApiServer.Batch.Anthropic.Handlers.{anthropic_batches_results}

-- The name is valid for results where it is valid for batches.
accepts-results :
    (i : String)
    → accepts anthropic_batches_namespace i ≡ true
    → accepts anthropic_batch_results_namespace i ≡ true
unfolding validate_component all_chars
accepts-results i a =
    let (u, u', q, q') = accepts-valid anthropic_batches_namespace i a in rw q' refl

jsonl_bytes-total :
    (to_writer : Value → Result String (List ℕ))
    → ((v : Value) → (bytes : List ℕ) × (to_writer v ≡ ok bytes))
    → (lines : List Value) → (bytes : List ℕ) × (jsonl_bytes to_writer lines ≡ ok bytes)
unfolding jsonl_bytes
jsonl_bytes-total to_writer total [] = ([], refl)
jsonl_bytes-total to_writer total (line ∷ rest) =
    let (bytes, p) = total line in
    let (more, q) = jsonl_bytes-total to_writer total rest in
    (bytes ++ (b'\n' ∷ more), rw (jsonl_bytes, p, q) refl)

module _ (o : Outside) ⦃batch_codec : Codec AnthropicBatchRecord⦄ (b : AnthropicBatchRecord) where
  open batch_codec use {to_value}

  -- The blob of the results is there.
  abbrev ResultsThere : Service → Type 0
  ResultsThere s =
      (accepts anthropic_batch_results_namespace b.id ≡ true)
      × ((bytes : List ℕ) × ((get_blob o.tenant_hash anthropic_batch_results_namespace b.tenant_id
              b.id s.durable).0
            ≡ ok (some bytes)))

  -- The batch is stored as ended, and its results are there.
  abbrev pub HasResults : Unit {0} → Service → Type 0
  HasResults u s =
      ((e : AnthropicBatchRecord) × (stored_batch o b s ≡ ok (some e))
        × (e.processing_status ≡ "ended"))
      × ResultsThere s

  module _ (lines : List Value) (s : Service) where
    write_results_ok :
        (bytes : List ℕ)
        → jsonl_bytes o.to_writer lines ≡ ok bytes
        → write_results o b lines s
          ≡ stored
              (put_blob o.tenant_hash anthropic_batch_results_namespace b.tenant_id b.id bytes)
              s
    unfolding write_jsonl_blob
    write_results_ok bytes q = rw (write_jsonl_blob, q) refl

    write_results_err :
        (e : String)
        → jsonl_bytes o.to_writer lines ≡ err e
        → write_results o b lines s ≡ (err e, s)
    unfolding write_jsonl_blob
    write_results_err e q = rw (write_jsonl_blob, q) refl

  write_results-There :
      (lines : List Value) (s : Service) → Post (λ u s. ResultsThere s) (write_results o b lines s)
  write_results-There lines s = elim (Result-cases (jsonl_bytes o.to_writer lines)) [
    | inr (e, q) ↦ rw (write_results_err lines s e q) tt
    | inl (bytes, q) ↦
        let put =
          stored (put_blob o.tenant_hash anthropic_batch_results_namespace b.tenant_id b.id bytes)
            s in
        rw (write_results_ok lines s bytes q) (
          Post-of_ok (λ (u : Unit {0}) s. ResultsThere s) put
            (λ u h. (
              put_blob-accepts o.tenant_hash anthropic_batch_results_namespace b.tenant_id b.id
                  bytes s.durable u h,
              (
                bytes,
                get_blob-put_blob o.tenant_hash anthropic_batch_results_namespace b.tenant_id b.id
                    bytes s.durable u h,
              ),
            )))
  ]

  -- The results stay when the record is written.
  kept :
      (e : AnthropicBatchRecord) (s : Service)
      → ResultsThere s
      → ResultsThere
          (stored (put_json o.tenant_hash anthropic_batches_namespace b.tenant_id b.id e) s).1
  kept e s (a, (bytes, h)) = (
    a,
    (
      bytes,
      get_blob-put_json o.tenant_hash anthropic_batch_results_namespace b.tenant_id b.id
          anthropic_batches_namespace b.tenant_id b.id e s.durable bytes a h,
    ),
  )

  put_batch-HasResults :
      (now : ℕ) (counts : AnthropicBatchRequestCounts) (s : Service)
      → ResultsThere s
      → Post HasResults (put_batch o (ended now counts b) s)
  unfolding put_batch
  put_batch-HasResults now counts s there =
      let e = ended now counts b in
      Post-of_ok HasResults (put_batch o e s) (λ u h. (
        (
          e,
          get_json-put_json o.tenant_hash anthropic_batches_namespace b.tenant_id b.id e s.durable u
              h,
          refl,
        ),
        kept e s there,
      ))

  end_batch-HasResults :
      (counts : AnthropicBatchRequestCounts) (lines : List Value) (s : Service)
      → Post HasResults (end_batch o b counts lines s)
  unfolding end_batch
  end_batch-HasResults counts lines s =
      Post-continue HasResults (λ (u : Unit {0}) s. ResultsThere s) (write_results o b lines s)
        (λ u. unix_timestamp_secs o.env >>= λ now. put_batch o (ended now counts b))
        (write_results-There lines s)
        (λ u s there.
          put_batch-HasResults (o.env.time_at s.reads) counts (record s { reads = s.reads + 1 })
            there)

  processed-HasResults :
      (cancelled : Bool) (inputs : List AnthropicBatchInput) (s : Service)
      → Post HasResults (process_inputs o cancelled b inputs s)
  unfolding process_inputs finish_cancelled_anthropic_batch run_requests
  processed-HasResults cancelled inputs s = elim (Bool-cases (b.cancel_requested || cancelled)) [
    | inl stopped ↦ rw stopped (end_batch-HasResults _ _ s)
    | inr fresh ↦ rw fresh (end_batch-HasResults _ _ (o.run_items inputs s).1)
  ]

  run-HasResults :
      (cancelled : Bool) (s : Service) → Post HasResults (run_anthropic_batch o cancelled b s)
  unfolding run_anthropic_batch
  run-HasResults cancelled s =
      Post-then HasResults (load_inputs o b s) _ λ inputs s. processed-HasResults cancelled inputs s

  results-HasResults :
      (env : Environment) (to_vec : List AnthropicBatchInput → Result String (List ℕ)) (s : Service)
      → HasResults tt s
      → (bytes : List ℕ) × ((anthropic_batches_results env o.tenant_hash to_vec b.tenant_id b.id
            s).0
          ≡ ok bytes)
  unfolding anthropic_batches_results
  results-HasResults env to_vec s ((e, there, over), (a, (bytes, h))) =
      let read =
        outcome_path (get_json o.tenant_hash anthropic_batches_namespace b.tenant_id b.id s.durable)
          there
          (get_json_state AnthropicBatchRecord o.tenant_hash anthropic_batches_namespace b.tenant_id
            b.id s.durable) in
      (bytes, rw (read, over, h) refl)

  module _ (valid : accepts anthropic_batches_namespace b.id ≡ true)
      (writable : (e : AnthropicBatchRecord) → (v : Value) × (to_value e ≡ ok v))
      (total : (v : Value) → (bytes : List ℕ) × (o.to_writer v ≡ ok bytes)) where
    write_results-ok :
        (lines : List Value) (s : Service) → ResultsThere (write_results o b lines s).1
    write_results-ok lines s =
        let (bytes, q) = jsonl_bytes-total o.to_writer total lines in
        let a = accepts-results b.id valid in
        let put =
          put_blob_valid o.tenant_hash anthropic_batch_results_namespace b.tenant_id b.id bytes
            s.durable a in
        rw (write_results_ok lines s bytes q) (
          a,
          (
            bytes,
            get_blob-put_blob o.tenant_hash anthropic_batch_results_namespace b.tenant_id b.id bytes
                s.durable tt (ap (λ x. x.0) put),
          ),
        )

    fail-HasResults :
        (error : String) (s : Service) → HasResults tt (fail_anthropic_batch o b error s)
    unfolding fail_anthropic_batch put_batch
    fail-HasResults error s =
        let written =
          (write_results o b (result_line "_batch" (errored_with (api_error error)) ∷ []) s).1 in
        let there =
          write_results-ok (result_line "_batch" (errored_with (api_error error)) ∷ []) s in
        let counts : AnthropicBatchRequestCounts = record b.request_counts {
          processing = 0;
          errored = max b.request_counts.errored 1;
        } in
        let e = ended (o.env.time_at written.reads) counts b in
        let (v, w) = writable e in
        (
          (
            e,
            get_json-put_json o.tenant_hash anthropic_batches_namespace b.tenant_id b.id e
                written.durable tt
                (put_json-accepted o.tenant_hash anthropic_batches_namespace b.tenant_id b.id e
                  written.durable v valid w),
            refl,
          ),
          kept e (record written { reads = written.reads + 1 }) there,
        )

    worker-HasResults :
        (cancelled : Bool) (s : Service) → HasResults tt (anthropic_worker o cancelled b s)
    unfolding anthropic_worker
    worker-HasResults cancelled s = elim (Result-cases (run_anthropic_batch o cancelled b s).0) [
      | inl (u, h) ↦
          rw (anthropic_worker, h)
            (Post-ok HasResults (run_anthropic_batch o cancelled b s) h
              (run-HasResults cancelled s))
      | inr (e, h) ↦
          rw (anthropic_worker, h) (fail-HasResults e (run_anthropic_batch o cancelled b s).1)
    ]

    -- Whatever the input, the results and a cancellation, after the worker of a batch the handler
    -- of its results answers with some bytes. The batch has a valid id, and records and lines can
    -- be written.
    pub anthropic_batches_results-anthropic_worker :
        (env : Environment) (to_vec : List AnthropicBatchInput → Result String (List ℕ))
        (cancelled : Bool) (s : Service)
        → (bytes : List ℕ) × ((anthropic_batches_results env o.tenant_hash to_vec b.tenant_id b.id
              (anthropic_worker o cancelled b s)).0
            ≡ ok bytes)
    anthropic_batches_results-anthropic_worker env to_vec cancelled s =
        results-HasResults env to_vec (anthropic_worker o cancelled b s)
          (worker-HasResults cancelled s)
