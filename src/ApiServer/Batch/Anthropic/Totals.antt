-- ===== src/ApiServer/Batch/Anthropic/Totals.antt =====
-- What a batch of Anthropic messages has counted at its end.
use miya_api.Prelude.{
  ℕ, ◌+◌, ◌≤◌, ◌<◌, ◌≡◌, refl, String, Bool, Option, none, some, List, [], ◌∷◌, length, Result, ok,
  err, total, if◌then◌else◌, Post, Post-of_ok, Post-then, Post-map, u64_max, Bool-cases, inl, inr,
  ◌||◌, arith,
}
use miya_api.Protocol.Json.{Value}
use miya_api.ApiServer.DurableStore.{Codec, get_json}
use miya_api.ApiServer.DurableStore.Objects.{get_json-put_json}
use miya_api.ApiServer.Batch.{BatchDispatchResult}
use miya_api.ApiServer.Batch.Service.{Service, unix_timestamp_secs}
use miya_api.ApiServer.Batch.Tally.{ItemResult}
use miya_api.ApiServer.Batch.Tally.Kinds.{answered_well, answered_badly, unanswered, total-kinds}
use miya_api.ApiServer.Batch.Anthropic.{
  AnthropicBatchRecord, AnthropicBatchRequestCounts, AnthropicBatchInput, Outside, default_counts,
  item_outcome, item_outcomes, ended, anthropic_batches_namespace, write_results, load_inputs,
  put_batch, end_batch, finish_cancelled_anthropic_batch, run_requests, process_inputs,
  run_anthropic_batch,
}

abbrev pub counted : AnthropicBatchRequestCounts → ℕ
counted c = c.succeeded + c.errored + c.canceled

-- The counts after some results of each kind.
abbrev Added : ℕ → ℕ → ℕ → AnthropicBatchRequestCounts → AnthropicBatchRequestCounts → Type 0
Added well badly missing c d =
    (d.succeeded ≡ c.succeeded + well)
    × (d.errored ≡ c.errored + badly)
    × (d.canceled ≡ c.canceled + missing)

item_outcome-Added :
    (id : String) (r : Option (Result String BatchDispatchResult)) (c : AnthropicBatchRequestCounts)
    → counted c < u64_max
    → Added
        (answered_well (id, r))
        (answered_badly (id, r))
        (unanswered (id, r))
        c
        (item_outcome r c).0
unfolding item_outcome
item_outcome-Added id none c h = omega arith
item_outcome-Added id (some (err e)) c h = omega arith
item_outcome-Added id (some (ok result)) c h = ground arith

item_outcomes-Added :
    (rs : List ItemResult) (c : AnthropicBatchRequestCounts)
    → counted c + length rs ≤ u64_max
    → Added
        (total answered_well rs)
        (total answered_badly rs)
        (total unanswered rs)
        c
        (item_outcomes rs c).0
unfolding item_outcomes
item_outcomes-Added [] c h = omega arith
item_outcomes-Added ((id, r) ∷ rest) c h =
    let one = item_outcome-Added id r c (omega arith) in
    let kinds = total-kinds ((id, r) ∷ []) in
    let more = item_outcomes-Added rest (item_outcome r c).0 (omega (arith, one, kinds)) in
    omega (arith, one, more)

module _ (o : Outside) ⦃batch_codec : Codec AnthropicBatchRecord⦄ where
  abbrev pub stored_batch :
      AnthropicBatchRecord → Service → Result String (Option AnthropicBatchRecord)
  stored_batch b s =
      (get_json o.tenant_hash anthropic_batches_namespace b.tenant_id b.id s.durable).0

  -- The batch is stored as ended, with the given counts.
  abbrev pub EndsWith :
      AnthropicBatchRecord → AnthropicBatchRequestCounts → Unit {0} → Service → Type 0
  EndsWith b counts u s =
      (e : AnthropicBatchRecord) × (stored_batch b s ≡ ok (some e))
      × (e.processing_status ≡ "ended")
      × (e.request_counts ≡ counts)

  put_batch-EndsWith :
      (b : AnthropicBatchRecord) (now : ℕ) (counts : AnthropicBatchRequestCounts) (s : Service)
      → Post (EndsWith b counts) (put_batch o (ended now counts b) s)
  unfolding put_batch
  put_batch-EndsWith b now counts s =
      let e = ended now counts b in
      Post-of_ok (EndsWith b counts) (put_batch o e s) (λ u h. (
        e,
        get_json-put_json o.tenant_hash anthropic_batches_namespace b.tenant_id b.id e s.durable u
            h,
        refl,
        refl,
      ))

  pub end_batch-EndsWith :
      (b : AnthropicBatchRecord) (counts : AnthropicBatchRequestCounts) (lines : List Value)
      (s : Service)
      → Post (EndsWith b counts) (end_batch o b counts lines s)
  unfolding end_batch
  end_batch-EndsWith b counts lines s =
      let Q = EndsWith b counts in
      Post-then Q (write_results o b lines s) _ λ u s.
        Post-then Q (unix_timestamp_secs o.env s) _ λ now s. put_batch-EndsWith b now counts s

  -- The batch is stored as ended, with no request left in process and with the given counts of the
  -- other kinds, which are as many as the requests.
  abbrev pub Counts : AnthropicBatchRecord → ℕ → ℕ → ℕ → ℕ → Unit {0} → Service → Type 0
  Counts b n well badly missing u s =
      (e : AnthropicBatchRecord) × (stored_batch b s ≡ ok (some e))
      × (e.processing_status ≡ "ended")
      × (e.request_counts.processing ≡ 0)
      × (counted e.request_counts ≡ n)
      × (e.request_counts.succeeded ≡ well)
      × (e.request_counts.errored ≡ badly)
      × (e.request_counts.canceled ≡ missing)

  -- All requests are counted: as canceled if the batch was cancelled, and each by its result
  -- otherwise.
  abbrev pub AllCounted :
      Bool
      → AnthropicBatchRecord
      → List AnthropicBatchInput
      → List ItemResult
      → Unit {0}
      → Service
      → Type 0
  AllCounted stopped b inputs results =
      if stopped
      then Counts b (length inputs) 0 0 (length inputs)
      else Counts b (length inputs) (total answered_well results) (total answered_badly results)
          (total unanswered results)

  EndsWith-Counts :
      (b : AnthropicBatchRecord) (counts : AnthropicBatchRequestCounts) (n well badly missing : ℕ)
      → counts.processing ≡ 0
      → counted counts ≡ n
      → Added well badly missing default_counts counts
      → (u : Unit {0}) (s : Service) → EndsWith b counts u s
      → Counts b n well badly missing u s
  EndsWith-Counts b counts n well badly missing none_left sum added u s (e, there, over, same) = (
    e,
    there,
    over,
    rw same none_left,
    rw same sum,
    rw same (omega (arith, added)),
    rw same (omega (arith, added)),
    rw same (omega (arith, added)),
  )

  process_inputs-AllCounted :
      (cancelled : Bool) (b : AnthropicBatchRecord) (inputs : List AnthropicBatchInput)
      (s : Service)
      → ((s : Service) → length (o.run_items inputs s).0 ≡ length inputs)
      → length inputs ≤ u64_max
      → Post
          (AllCounted (b.cancel_requested || cancelled) b inputs (o.run_items inputs s).0)
          (process_inputs o cancelled b inputs s)
  unfolding process_inputs finish_cancelled_anthropic_batch run_requests
  process_inputs-AllCounted cancelled b inputs s answered small =
      elim (Bool-cases (b.cancel_requested || cancelled)) [
        | inl stopped ↦
            let counts = record default_counts { canceled = length inputs } in
            rw stopped (
              Post-map (EndsWith b counts) _ _
                (EndsWith-Counts b counts (length inputs) 0 0 (length inputs) refl (omega arith)
                  (refl, refl, omega arith))
                (end_batch-EndsWith b counts _ s))
        | inr fresh ↦
            let results = o.run_items inputs s in
            let counts : AnthropicBatchRequestCounts =
              record (item_outcomes results.0 default_counts).0 { processing = 0 } in
            let added = item_outcomes-Added results.0 default_counts (omega (arith, answered s)) in
            let kinds = total-kinds results.0 in
            rw fresh (
              Post-map (EndsWith b counts) _ _
                (EndsWith-Counts b counts (length inputs) (total answered_well results.0)
                  (total answered_badly results.0) (total unanswered results.0) refl
                  (omega (arith, added, kinds, answered s)) added)
                (end_batch-EndsWith b counts (item_outcomes results.0 default_counts).1 results.1))
      ]

  -- A run that succeeds stores the batch as ended with no request left in process, and as many
  -- succeeded, errored and canceled requests together as its input has, whatever was counted
  -- before. If the batch was cancelled they are all canceled; otherwise those that were answered
  -- with a status from 200 to 299 have succeeded, those with another status or an error are
  -- errored, and those without an answer canceled. The requests have one result each,
  -- and their number fits a `u64`.
  pub run_anthropic_batch-AllCounted :
      (cancelled : Bool) (b : AnthropicBatchRecord) (s : Service)
      {inputs : List AnthropicBatchInput}
      → load_inputs o b s ≡ (ok inputs, s)
      → ((s : Service) → length (o.run_items inputs s).0 ≡ length inputs)
      → length inputs ≤ u64_max
      → Post
          (AllCounted (b.cancel_requested || cancelled) b inputs (o.run_items inputs s).0)
          (run_anthropic_batch o cancelled b s)
  unfolding run_anthropic_batch
  run_anthropic_batch-AllCounted cancelled b s {inputs} read answered small =
      rw read (process_inputs-AllCounted cancelled b inputs s answered small)
