-- ===== src/ApiServer/Batch/OpenAi/Ending.antt =====
-- The state of a batch after its worker.
use miya_api.Prelude.{
  ℕ, ◌+◌, ◌≡◌, refl, String, Bool, true, some, List, [], ◌∷◌, length, Result-cases, ok, err, Post,
  Post-ok, Post-then, Post-map, ◌⊎◌, inl, inr, Bool-cases, leb, ◌||◌,
}
use miya_api.Protocol.Json.{Value, object, field, end}
use miya_api.ApiServer.DurableStore.{Codec}
use miya_api.ApiServer.DurableStore.Objects.{accepts, get_json-put_json, put_json-accepted}
use miya_api.ApiServer.Batch.{StoredOpenAiFile, OpenAiBatchRecord, openai_batches_namespace}
use miya_api.ApiServer.Batch.Service.{Service, unix_timestamp_secs}
use miya_api.ApiServer.Batch.Tally.{Tally}
use miya_api.ApiServer.Batch.OpenAi.{
  Outside, put_batch, write_file, cancel_openai_batch, complete_openai_batch, finish_openai_batch,
  load_inputs, run_requests, process_openai_batch, run_openai_batch, fail_openai_batch,
  batch_worker, counted, in_progress, failed_with, ok_value, invalid_batch_file,
}
use miya_api.ApiServer.Batch.OpenAi.Counts.{stored_batch, Ends, cancel-Ends, complete-Ends}

-- The statuses that `openai_batches_cancel` refuses, without `expired`, which nothing sets.
abbrev pub IsTerminal : String → Type 0
IsTerminal status = (status ≡ "completed") ⊎ ((status ≡ "cancelled") ⊎ (status ≡ "failed"))

module _ (o : Outside) ⦃file_codec : Codec StoredOpenAiFile⦄
    ⦃batch_codec : Codec OpenAiBatchRecord⦄ where
  open batch_codec use {to_value}

  -- The batch is stored in a terminal status.
  abbrev pub Over : OpenAiBatchRecord → Unit {0} → Service → Type 0
  Over b u s = (e : OpenAiBatchRecord) × (stored_batch o b s ≡ ok (some e)) × IsTerminal e.status

  cancel-Over :
      (b : OpenAiBatchRecord) (out errors : List Value) (s : Service)
      → Post (Over b) (cancel_openai_batch o b out errors s)
  cancel-Over b out errors s =
      Post-map (Ends o "cancelled" b) (Over b) (cancel_openai_batch o b out errors s)
        (λ u s h. (h.0, h.1, inr (inl h.3))) (cancel-Ends o b out errors s)

  complete-Over :
      (b : OpenAiBatchRecord) (out errors : List Value) (s : Service)
      → Post (Over b) (complete_openai_batch o b out errors s)
  complete-Over b out errors s =
      Post-map (Ends o "completed" b) (Over b) (complete_openai_batch o b out errors s)
        (λ u s h. (h.0, h.1, inl h.3)) (complete-Ends o b out errors s)

  finish-Over :
      (b : OpenAiBatchRecord) (now n : ℕ) (last : Bool) (t : Tally) (s : Service)
      → Post (Over b) (finish_openai_batch o (in_progress now n b) last t s)
  unfolding finish_openai_batch
  finish-Over b now n last t s =
      let e = counted t (in_progress now n b) in
      elim (Bool-cases (last || b.cancel_requested || leb 1 t.cancelled)) [
        | inl stopped ↦ rw stopped (cancel-Over e t.output_lines t.error_lines s)
        | inr ended ↦ rw ended (complete-Over e t.output_lines t.error_lines s)
      ]

  process-Over :
      (last : Bool) (b : OpenAiBatchRecord) (s : Service)
      → Post (Over b) (process_openai_batch o last b s)
  unfolding process_openai_batch
  process-Over last b s = Post-then (Over b) (load_inputs o b s) _ λ inputs s.
      Post-then (Over b) (unix_timestamp_secs o.env s) _ λ now s.
        Post-then (Over b) (put_batch o (in_progress now (length inputs) b) s) _ λ u s.
          finish-Over b now (length inputs) last
            (run_requests o (in_progress now (length inputs) b) inputs s).0
            (run_requests o (in_progress now (length inputs) b) inputs s).1

  run-Over :
      (first last : Bool) (b : OpenAiBatchRecord) (s : Service)
      → Post (Over b) (run_openai_batch o first last b s)
  unfolding run_openai_batch
  run-Over first last b s = elim (Bool-cases (b.cancel_requested || first)) [
    | inl stopped ↦ rw stopped (cancel-Over b [] [] s)
    | inr fresh ↦ rw fresh (process-Over last b s)
  ]

  module _ (first last : Bool) (b : OpenAiBatchRecord) (s : Service) where
    worker_ok :
        (u : Unit {0})
        → (run_openai_batch o first last b s).0 ≡ ok u
        → batch_worker o first last b s ≡ (run_openai_batch o first last b s).1
    unfolding batch_worker
    worker_ok u h = rw (h, batch_worker) refl

    worker_err :
        (e : String)
        → (run_openai_batch o first last b s).0 ≡ err e
        → batch_worker o first last b s
          ≡ fail_openai_batch o b e (run_openai_batch o first last b s).1
    unfolding batch_worker
    worker_err e h = rw (h, batch_worker) refl

  module _ (b : OpenAiBatchRecord) (valid : accepts openai_batches_namespace b.id ≡ true)
      (writable : (e : OpenAiBatchRecord) → (v : Value) × (to_value e ≡ ok v)) where
    fail-Over : (error : String) (s : Service) → Over b tt (fail_openai_batch o b error s)
    unfolding fail_openai_batch put_batch
    fail-Over error s =
        let file =
          write_file o b "validation-errors"
            (object (field "error" (invalid_batch_file error) end) ∷ [])
            (record s { reads = s.reads + 1 }) in
        let e = failed_with error (ok_value file.0) (o.env.time_at s.reads) b in
        let (v, w) = writable e in
        (
          e,
          get_json-put_json o.tenant_hash openai_batches_namespace b.tenant_id b.id e file.1.durable
              tt
              (put_json-accepted o.tenant_hash openai_batches_namespace b.tenant_id b.id e
                file.1.durable v valid w),
          inr (inr refl),
        )

    -- Whatever the input, the results and the moment of a cancellation, the worker leaves its batch
    -- stored as completed, cancelled or failed. The batch has a valid id, and records can be
    -- written.
    pub batch_worker-Over :
        (first last : Bool) (s : Service) → Over b tt (batch_worker o first last b s)
    batch_worker-Over first last s = elim (Result-cases (run_openai_batch o first last b s).0) [
      | inl (u, h) ↦
          rw (worker_ok first last b s u h)
            (Post-ok (Over b) (run_openai_batch o first last b s) h (run-Over first last b s))
      | inr (e, h) ↦
          rw (worker_err first last b s e h) (fail-Over e (run_openai_batch o first last b s).1)
    ]
