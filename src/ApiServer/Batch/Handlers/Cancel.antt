-- ===== src/ApiServer/Batch/Handlers/Cancel.antt =====
-- What a cancellation does to a batch, and to the worker that runs it later.
use Prim.Native.String.{◌++◌ as concat}
use miya_api.Prelude.{
  ℕ, ◌≡◌, refl, String, Bool, true, not, Option, some, Result, ok, err, Post, Post-of_ok, Post-then,
  Post-ok, Post-continue, outcome_path, [], ◌||◌, arith,
}
use miya_api.ApiServer.DurableStore.{Codec, get_json, put_json}
use miya_api.ApiServer.DurableStore.Objects.{get_json-put_json, get_json_state}
use miya_api.ApiServer.JobRuntime.{JobRuntime, cancel}
use miya_api.ApiServer.Batch.{
  openai_batch_job_key, StoredOpenAiFile, OpenAiBatchRecord, openai_batches_namespace,
}
use miya_api.ApiServer.Batch.Service.{Service, Environment, stored, unix_timestamp_secs}
use miya_api.ApiServer.Batch.OpenAi.{Outside, run_openai_batch}
use miya_api.ApiServer.Batch.OpenAi.Counts.{Ends, cancel-Ends}
use miya_api.ApiServer.Batch.Handlers.{
  invalid_request, not_found, calling, found_or, reject_unless, recast-Post, signal_cancel,
  get_batch, terminal, cancelling, openai_batches_cancel,
}

module _ (tenant_hash : String → String) ⦃batch_codec : Codec OpenAiBatchRecord⦄
    (tenant_id batch_id : String) where
  -- What the store has of the batch.
  abbrev pub batch_of : Service → Result String (Option OpenAiBatchRecord)
  batch_of s = (get_json tenant_hash openai_batches_namespace tenant_id batch_id s.durable).0

  write-batch_of :
      (b : OpenAiBatchRecord) (s : Service)
      → Post
          (λ (u : Unit {0}) s. batch_of s ≡ ok (some b))
          (calling (stored (put_json tenant_hash openai_batches_namespace tenant_id batch_id b)) s)
  write-batch_of b s =
      let Q = λ (u : Unit {0}) (s : Service). batch_of s ≡ ok (some b) in
      let x = stored (put_json tenant_hash openai_batches_namespace tenant_id batch_id b) s in
      recast-Post Q x (
        Post-of_ok Q x (λ u h.
          get_json-put_json tenant_hash openai_batches_namespace tenant_id batch_id b s.durable u
            h))

  -- The batch is stored with the wish to cancel it.
  abbrev pub Cancelling : OpenAiBatchRecord → Service → Type 0
  Cancelling b s =
      (batch_of s ≡ ok (some b)) × (b.cancel_requested ≡ true) × (b.status ≡ "cancelling")

  closed :
      (now : ℕ) (b : OpenAiBatchRecord) (s : Service) (jobs : JobRuntime)
      → batch_of s ≡ ok (some (cancelling now b))
      → Cancelling (cancelling now b) (record s { jobs = jobs })
  closed now b s jobs h = (h, refl, refl)

  read :
      (s : Service) (b : OpenAiBatchRecord)
      → batch_of s ≡ ok (some b)
      → get_json tenant_hash openai_batches_namespace tenant_id batch_id s.durable
        ≡ (ok (some b), s.durable)
  read s b h = outcome_path _ h (
      get_json_state OpenAiBatchRecord tenant_hash openai_batches_namespace tenant_id batch_id
        s.durable)

  module _ (env : Environment) ⦃file_codec : Codec StoredOpenAiFile⦄ where
    -- A cancellation that succeeds stores the batch that it answers with, as one that is cancelling
    -- and has the wish to be cancelled.
    pub openai_batches_cancel-Cancelling :
        (s : Service) → Post Cancelling (openai_batches_cancel env tenant_hash tenant_id batch_id s)
    unfolding openai_batches_cancel
    openai_batches_cancel-Cancelling s =
        Post-then Cancelling (get_batch env tenant_hash tenant_id batch_id s) _ λ found s.
          Post-then Cancelling
            (found_or {A = OpenAiBatchRecord} (not_found (concat "batch not found: " batch_id))
              found s)
            _
            λ b s.
              Post-then Cancelling
                (reject_unless (not (terminal b.status))
                  (invalid_request (concat "batch " (concat batch_id " is already terminal"))) s)
                _
                λ u s. Post-then Cancelling (calling (unix_timestamp_secs env) s) _ λ now s.
                  Post-continue Cancelling (λ u s. batch_of s ≡ ok (some (cancelling now b)))
                    (calling
                      (stored (
                        put_json tenant_hash openai_batches_namespace tenant_id batch_id
                          (cancelling now b)))
                      s)
                    (λ u. signal_cancel (cancelling now b)) (write-batch_of (cancelling now b) s)
                    λ u s h.
                      closed now b s (cancel (openai_batch_job_key (cancelling now b)) s.jobs).1 h

    -- The worker of a batch that a cancellation answered with, whenever it starts, ends with the
    -- batch stored as cancelled and its counts as they were, unless it fails.
    pub cancelled_worker :
        (o : Outside) (s : Service) {b : OpenAiBatchRecord}
        → (openai_batches_cancel env tenant_hash tenant_id batch_id s).0 ≡ ok b
        → (first last : Bool) (later : Service)
        → Post (Ends o "cancelled" b) (run_openai_batch o first last b later)
    unfolding run_openai_batch
    cancelled_worker o s {b} h first last later =
        let stopped = (Post-ok Cancelling _ h (openai_batches_cancel-Cancelling s)).1 in
        let test : (b.cancel_requested || first) ≡ true = ground (arith, stopped) in
        rw test (cancel-Ends o b [] [] later)

    -- A batch that is over is left as it is: its cancellation is refused.
    pub openai_batches_cancel-terminal :
        (s : Service) (b : OpenAiBatchRecord)
        → batch_of s ≡ ok (some b)
        → terminal b.status ≡ true
        → openai_batches_cancel env tenant_hash tenant_id batch_id s
          ≡ (err (invalid_request (concat "batch " (concat batch_id " is already terminal"))), s)
    unfolding openai_batches_cancel
    openai_batches_cancel-terminal s b there over = rw (read s b there, over) refl
