-- ===== src/ApiServer/Batch/OpenAi/Counts.antt =====
-- How many requests a batch has counted at its end.
use miya_api.Prelude.{
  total, if◌then◌else◌, ℕ, ◌+◌, ◌≤◌, ◌≡◌, refl, String, Bool, false, Option, some, List, length,
  Result, ok, Post, Post-of_ok, Post-ok, Post-then, Post-continue, Post-map, lift, text_ord, ◌=?◌,
  ◌∙◌, ap, u64_max, Bool-cases, inl, inr, leb, ◌||◌, arith,
}
use Prim.Native.String.{◌++◌ as concat}
use miya_api.Protocol.Json.{Value}
use miya_api.ApiServer.DurableStore.{Codec, get_json, get_blob}
use miya_api.ApiServer.DurableStore.Objects.{get_json-put_json}
use miya_api.ApiServer.Batch.{
  StoredOpenAiFile, OpenAiBatchRecord, OpenAiBatchRequestCounts, OpenAiBatchInputLine,
  openai_batches_namespace, openai_files_namespace, openai_file_blobs_namespace,
  max_openai_batch_requests,
}
use miya_api.ApiServer.Batch.Service.{Service, stored, unix_timestamp_secs}
use miya_api.ApiServer.Batch.Input.{batch_inputs}
use miya_api.ApiServer.Batch.Input.Checks.{batch_inputs-Accepted}
use miya_api.ApiServer.Batch.Tally.{ItemResult, Tally, first_tally}
use miya_api.ApiServer.Batch.Tally.Kinds.{
  answered_well, answered_badly, unanswered, total-kinds, Added, tally_results-Added,
  tally_results_total,
}
use miya_api.ApiServer.Batch.OpenAi.{
  text_of, Outside, found, require, put_batch, cancel_openai_batch, complete_openai_batch,
  finish_openai_batch, write_file, load_inputs, run_requests, process_openai_batch,
  run_openai_batch, counted, cancelled_with, completed_with, finalizing, in_progress,
}

module _ (o : Outside) ⦃file_codec : Codec StoredOpenAiFile⦄
    ⦃batch_codec : Codec OpenAiBatchRecord⦄ where
  -- What the store has of the batch.
  abbrev pub stored_batch : OpenAiBatchRecord → Service → Result String (Option OpenAiBatchRecord)
  stored_batch b s = (get_json o.tenant_hash openai_batches_namespace b.tenant_id b.id s.durable).0

  -- A state where the batch is stored as `b`.
  abbrev pub IsStored : OpenAiBatchRecord → Unit {0} → Service → Type 0
  IsStored b u s = stored_batch b s ≡ ok (some b)

  put_batch-IsStored : (b : OpenAiBatchRecord) (s : Service) → Post (IsStored b) (put_batch o b s)
  unfolding put_batch
  put_batch-IsStored b s = Post-of_ok (IsStored b) (put_batch o b s) (λ u h.
      get_json-put_json o.tenant_hash openai_batches_namespace b.tenant_id b.id b s.durable u h)

  -- The batch is stored with the given status and the counts of `b`.
  abbrev pub Ends : String → OpenAiBatchRecord → Unit {0} → Service → Type 0
  Ends status b u s =
      (e : OpenAiBatchRecord) × (stored_batch b s ≡ ok (some e))
      × (e.request_counts ≡ b.request_counts)
      × (e.status ≡ status)

  put_batch-Ends :
      (status : String) (b e : OpenAiBatchRecord) (s : Service)
      → e.tenant_id ≡ b.tenant_id
      → e.id ≡ b.id
      → e.request_counts ≡ b.request_counts
      → e.status ≡ status
      → Post (Ends status b) (put_batch o e s)
  put_batch-Ends status b e s p q c d = Post-of_ok (Ends status b) (put_batch o e s) (λ u h.
      (e, rw (← p, ← q) (Post-ok (IsStored e) (put_batch o e s) h (put_batch-IsStored e s)), c, d))

  pub cancel-Ends :
      (b : OpenAiBatchRecord) (out errors : List Value) (s : Service)
      → Post (Ends "cancelled" b) (cancel_openai_batch o b out errors s)
  unfolding cancel_openai_batch
  cancel-Ends b out errors s =
      let Q = Ends "cancelled" b in
      Post-then Q (write_file o b "output" out s) _ λ output s.
        Post-then Q (write_file o b "errors" errors s) _ λ failures s.
          Post-then Q (unix_timestamp_secs o.env s) _ λ now s.
            put_batch-Ends "cancelled" b (cancelled_with output failures now b) s refl refl refl
              refl

  pub complete-Ends :
      (b : OpenAiBatchRecord) (out errors : List Value) (s : Service)
      → Post (Ends "completed" b) (complete_openai_batch o b out errors s)
  unfolding complete_openai_batch
  complete-Ends b out errors s =
      let Q = Ends "completed" b in
      Post-then Q (unix_timestamp_secs o.env s) _ λ started s.
        Post-then Q (put_batch o (finalizing started b) s) _ λ u s.
          Post-then Q (write_file o b "output" out s) _ λ output s.
            Post-then Q (write_file o b "errors" errors s) _ λ failures s.
              Post-then Q (unix_timestamp_secs o.env s) _ λ now s.
                put_batch-Ends "completed" b
                  (completed_with output failures now (finalizing started b)) s refl refl refl refl

  -- The batch is stored with the counts of `b` and those of the results of its inputs, a cancelled
  -- request as a failed one, and as cancelled if there is one or the token was cancelled.
  abbrev pub Counted :
      Bool
      → OpenAiBatchRecord
      → List OpenAiBatchInputLine
      → List ItemResult
      → Unit {0}
      → Service
      → Type 0
  Counted last b inputs results u s =
      (e : OpenAiBatchRecord) × (stored_batch b s ≡ ok (some e))
      × (e.request_counts.total ≡ length inputs)
      × (e.request_counts.completed ≡ b.request_counts.completed + total answered_well results)
      × (e.request_counts.failed
          ≡ b.request_counts.failed + total answered_badly results + total unanswered results)
      × (e.request_counts.completed + e.request_counts.failed
          ≡ b.request_counts.completed + b.request_counts.failed + e.request_counts.total)
      × (e.status ≡ (if last || leb 1 (total unanswered results) then "cancelled" else "completed"))

  -- A tally of the results of the inputs.
  abbrev TallyOf : OpenAiBatchRecord → List OpenAiBatchInputLine → List ItemResult → Tally → Type 0
  TallyOf b inputs results t =
      Added (total answered_well results) (total answered_badly results) (total unanswered results)
        (first_tally b.request_counts) t
      × (t.request_counts.total ≡ length inputs)
      × (length results ≡ length inputs)
      × (b.request_counts.completed + b.request_counts.failed + length inputs ≤ u64_max)

  Ends-Counted :
      (last : Bool) (b : OpenAiBatchRecord) (now : ℕ) (inputs : List OpenAiBatchInputLine)
      (results : List ItemResult) (t : Tally) (status : String)
      → TallyOf b inputs results t
      → status ≡ (if last || leb 1 (total unanswered results) then "cancelled" else "completed")
      → (u : Unit {0}) (s : Service)
      → Ends status (counted t (in_progress now (length inputs) b)) u s
      → Counted last b inputs results u s
  Ends-Counted last b now inputs results t status (added, all, each, small) over u s
        (e, there, c, d) =
      let kinds = total-kinds results in
      let completed = ap (λ (r : OpenAiBatchRequestCounts). r.completed) c in
      let failed = ap (λ (r : OpenAiBatchRequestCounts). r.failed) c in
      let in_all = ap (λ (r : OpenAiBatchRequestCounts). r.total) c in
      (
        e,
        there,
        in_all ∙ all,
        omega (arith, completed, added),
        omega (arith, failed, added, kinds, each, small),
        omega (arith, completed, failed, in_all, added, all, kinds, each, small),
        d ∙ over,
      )

  finish-Counted :
      (last : Bool) (b : OpenAiBatchRecord) (now : ℕ) (inputs : List OpenAiBatchInputLine)
      (results : List ItemResult) (t : Tally) (s : Service)
      → b.cancel_requested ≡ false
      → TallyOf b inputs results t
      → Post
          (Counted last b inputs results)
          (finish_openai_batch o (in_progress now (length inputs) b) last t s)
  unfolding finish_openai_batch
  finish-Counted last b now inputs results t s fresh tally =
      let e = counted t (in_progress now (length inputs) b) in
      let missing : t.cancelled ≡ total unanswered results = omega (arith, tally.0) in
      let test : (last || b.cancel_requested || leb 1 t.cancelled)
          ≡ (last || leb 1 (total unanswered results)) =
        rw (fresh, missing) (ground arith) in
      elim (Bool-cases (last || leb 1 (total unanswered results))) [
        | inl stopped ↦
            rw (test, stopped)
              (Post-map (Ends "cancelled" e) _
                (cancel_openai_batch o e t.output_lines t.error_lines s)
                (Ends-Counted last b now inputs results t "cancelled" tally (rw stopped refl))
                (cancel-Ends e t.output_lines t.error_lines s))
        | inr ended ↦
            rw (test, ended)
              (Post-map (Ends "completed" e) _
                (complete_openai_batch o e t.output_lines t.error_lines s)
                (Ends-Counted last b now inputs results t "completed" tally (rw ended refl))
                (complete-Ends e t.output_lines t.error_lines s))
      ]

  load_inputs-length :
      (b : OpenAiBatchRecord) (s : Service)
      → Post (λ inputs s. length inputs ≤ max_openai_batch_requests) (load_inputs o b s)
  unfolding load_inputs
  load_inputs-length b s =
      let Few = λ (inputs : List OpenAiBatchInputLine) (s : Service).
        length inputs ≤ max_openai_batch_requests in
      Post-then Few
        (stored (get_json o.tenant_hash openai_files_namespace b.tenant_id b.input_file_id) s) _
        λ file s.
          Post-then Few
            (found {A = StoredOpenAiFile} (concat "input file not found: " b.input_file_id) file s)
            _
            λ file s.
              Post-then Few (require (file.purpose =? "batch") "input file purpose must be batch" s)
                _
                λ u s.
                  Post-then Few
                    (stored
                      (get_blob o.tenant_hash openai_file_blobs_namespace b.tenant_id
                        b.input_file_id)
                      s)
                    _
                    λ bytes s.
                      Post-then Few (found "input file content is missing" bytes s) _ λ bytes s.
                        Post-then Few (lift (text_of (o.from_utf8 bytes)) s) _ λ text s.
                          Post-of_ok Few (lift (batch_inputs o.from_str b.endpoint text) s)
                            λ inputs h. (batch_inputs-Accepted o.from_str b.endpoint text h).1.2

  -- The tally at the end of the loop over the results.
  run_requests-TallyOf :
      (b : OpenAiBatchRecord) (now : ℕ) (inputs : List OpenAiBatchInputLine) (s : Service)
      → length (o.run_items inputs s).0 ≡ length inputs
      → b.request_counts.completed + b.request_counts.failed + length inputs ≤ u64_max
      → TallyOf b inputs
          (o.run_items inputs s).0
          (run_requests o (in_progress now (length inputs) b) inputs s).0
  unfolding run_requests
  run_requests-TallyOf b now inputs s answered small =
      let first = first_tally (in_progress now (length inputs) b).request_counts in
      (
        tally_results-Added o.env.uuid_at (o.run_items inputs s).0 (o.run_items inputs s).1.reads
            first (omega (arith, answered, small)),
        tally_results_total o.env.uuid_at (o.run_items inputs s).0 (o.run_items inputs s).1.reads
            first,
        answered,
        small,
      )

  -- The requests of the input ran at a state where the batch was stored as in progress, and it is
  -- stored with what their results count.
  abbrev pub Accounted : Bool → OpenAiBatchRecord → Service → Unit {0} → Service → Type 0
  Accounted last b start u s =
      (inputs : List OpenAiBatchInputLine) × (running : Service) × (now : ℕ) × ((load_inputs o b
          start).0
        ≡ ok inputs)
      × (stored_batch b running ≡ ok (some (in_progress now (length inputs) b)))
      × Counted last b inputs (o.run_items inputs running).0 u s

  -- The inputs that are read, at most as many as a batch may have.
  abbrev Loaded : OpenAiBatchRecord → Service → List OpenAiBatchInputLine → Service → Type 0
  Loaded b start inputs s =
      (length inputs ≤ max_openai_batch_requests) × ((load_inputs o b start).0 ≡ ok inputs)

  load_inputs-Loaded : (b : OpenAiBatchRecord) (s : Service) → Post (Loaded b s) (load_inputs o b s)
  load_inputs-Loaded b s = Post-of_ok (Loaded b s) (load_inputs o b s) (λ inputs h. (
    Post-ok (λ inputs s. length inputs ≤ max_openai_batch_requests) (load_inputs o b s) h
        (load_inputs-length b s),
    h,
  ))

  process-Accounted :
      (last : Bool) (b : OpenAiBatchRecord) (s : Service)
      → ((inputs : List OpenAiBatchInputLine) (s : Service)
          → length (o.run_items inputs s).0 ≡ length inputs)
      → b.request_counts.completed + b.request_counts.failed + max_openai_batch_requests ≤ u64_max
      → b.cancel_requested ≡ false
      → Post (Accounted last b s) (process_openai_batch o last b s)
  unfolding process_openai_batch
  process-Accounted last b start answered small fresh =
      let Q = Accounted last b start in
      Post-continue Q (Loaded b start) (load_inputs o b start) _ (load_inputs-Loaded b start)
        λ inputs s read. Post-then Q (unix_timestamp_secs o.env s) _ λ now s.
          Post-continue Q (IsStored (in_progress now (length inputs) b))
            (put_batch o (in_progress now (length inputs) b) s) _
            (put_batch-IsStored (in_progress now (length inputs) b) s)
            λ u s there.
              let run = run_requests o (in_progress now (length inputs) b) inputs s in
              Post-map (Counted last b inputs (o.run_items inputs s).0) Q
                (finish_openai_batch o (in_progress now (length inputs) b) last run.0 run.1)
                (λ v e counts. (inputs, s, now, read.1, there, counts))
                (finish-Counted last b now inputs (o.run_items inputs s).0 run.0 run.1 fresh (
                  run_requests-TallyOf b now inputs s (answered inputs s)
                    (omega (arith, read.0, small))))

  -- A run that is not cancelled at its start and succeeds has read the requests of the input and
  -- run them while the batch was stored as in progress. It stores the batch with their number as
  -- the total; the requests that were answered with a status from 200 to 299 are added to the
  -- completed ones of the given record, and those with another status or an error and those that
  -- were cancelled to the failed ones, so that together they grow by the total. The batch is stored
  -- as cancelled if a request or the token was cancelled, and as completed otherwise. The requests
  -- have one result each, and the given counts leave room for theirs in a `u64`.
  pub run_openai_batch-Counted :
      (last : Bool) (b : OpenAiBatchRecord) (s : Service)
      → ((inputs : List OpenAiBatchInputLine) (s : Service)
          → length (o.run_items inputs s).0 ≡ length inputs)
      → b.request_counts.completed + b.request_counts.failed + max_openai_batch_requests ≤ u64_max
      → b.cancel_requested ≡ false
      → Post (Accounted last b s) (run_openai_batch o false last b s)
  unfolding run_openai_batch
  run_openai_batch-Counted last b s answered small fresh =
      let test : (b.cancel_requested || false) ≡ false = ground (arith, fresh) in
      rw test (process-Accounted last b s answered small fresh)
