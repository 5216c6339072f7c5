-- ===== src/ApiServer/Batch/Recovery.antt =====
-- `recover_durable_jobs` of crates/api-server/src/batch_api.rs, for the batches of both kinds: the
-- batches that were not over when the server stopped get their workers back.
use miya_api.Prelude.{
  ◌≡◌, refl, Bool, true, ◌||◌, String, List, [], ◌∷◌, All, filter, Result, Result-cases, ok, err,
  text_ord, ◌=?◌, =?_refl, if◌then◌else◌, Bool-cases, inl, inr,
}
use miya_api.BTreeMap.{contains_key, get-insert}
use miya_api.ApiServer.DurableStore.{Memory, Codec, validate_component, list_all_json}
use miya_api.ApiServer.JobRuntime.{JobRuntime, register}
use miya_api.ApiServer.Batch.{OpenAiBatchRecord, openai_batches_namespace, openai_batch_job_key}
use miya_api.ApiServer.Batch.Service.{Service, stored}
use miya_api.ApiServer.Batch.Handlers.{active}
use miya_api.ApiServer.Batch.Anthropic.{
  AnthropicBatchRecord, anthropic_batches_namespace, anthropic_batch_job_key,
}

module _ {T : Type 0} (job_key : T → String) (is_active : T → Bool) where
  -- The loop that spawns the active batches.
  unfoldable pub spawn_active : List T → JobRuntime → JobRuntime
  spawn_active [] jobs = jobs
  spawn_active (b ∷ rest) jobs =
      if is_active b
      then spawn_active rest (register (job_key b) jobs).1
      else spawn_active rest jobs

  -- Where the list of the batches cannot be read, none is spawned.
  unfoldable pub spawn_listed : Result String (List T) → Service → Service
  unfolding spawn_active
  spawn_listed (ok batches) s = record s { jobs = spawn_active batches s.jobs }
  spawn_listed (err e) s = s

abbrev pub anthropic_active : AnthropicBatchRecord → Bool
anthropic_active b = b.processing_status =? "in_progress" || b.processing_status =? "canceling"

module _ (tenant_hash : String → String) ⦃openai_codec : Codec OpenAiBatchRecord⦄
    ⦃anthropic_codec : Codec AnthropicBatchRecord⦄ where
  unfoldable pub recover_openai_batches : Service → Service
  unfolding spawn_listed
  recover_openai_batches s =
      let (batches, after) =
        stored (list_all_json tenant_hash {T = OpenAiBatchRecord} openai_batches_namespace) s in
      spawn_listed openai_batch_job_key (λ (b : OpenAiBatchRecord). active b.status) batches after

  unfoldable pub recover_anthropic_batches : Service → Service
  unfolding spawn_listed
  recover_anthropic_batches s =
      let (batches, after) =
        stored (list_all_json tenant_hash {T = AnthropicBatchRecord} anthropic_batches_namespace)
          s in
      spawn_listed anthropic_batch_job_key anthropic_active batches after

  unfoldable pub recover_batches : Service → Service
  recover_batches s = recover_anthropic_batches (recover_openai_batches s)

register-keeps :
    (k j : String) (s : JobRuntime)
    → contains_key k s.running ≡ true
    → contains_key k (register j s).1.running ≡ true
unfolding register
register-keeps k j s h = elim (Bool-cases (contains_key j s.running)) [
  | inl there ↦ rw (register, there) h
  | inr free ↦
      rw (register, free, get-insert j k tt s.running)
        (elim (Bool-cases (j =? k)) [ inl same ↦ rw same refl | inr other ↦ rw other h ])
]

register-has : (k : String) (s : JobRuntime) → contains_key k (register k s).1.running ≡ true
unfolding register
register-has k s = elim (Bool-cases (contains_key k s.running)) [
  | inl there ↦ rw (register, there) there
  | inr free ↦ rw (register, free, get-insert k k tt s.running, =?_refl k) refl
]

-- The job of the batch is running.
abbrev pub Runs : {T : Type 0} → (T → String) → JobRuntime → T → Type 0
Runs job_key jobs b = contains_key (job_key b) jobs.running ≡ true

module _ {T : Type 0} (job_key : T → String) (is_active : T → Bool) where
  spawn_active-keeps :
      (bs : List T) (jobs : JobRuntime) (k : String)
      → contains_key k jobs.running ≡ true
      → contains_key k (spawn_active job_key is_active bs jobs).running ≡ true
  unfolding spawn_active
  spawn_active-keeps [] jobs k h = h
  spawn_active-keeps (b ∷ rest) jobs k h = elim (Bool-cases (is_active b)) [
    | inl going ↦
        rw (spawn_active, going)
          (spawn_active-keeps rest (register (job_key b) jobs).1 k
            (register-keeps k (job_key b) jobs h))
    | inr over ↦ rw (spawn_active, over) (spawn_active-keeps rest jobs k h)
  ]

  spawn_active-Runs :
      (bs : List T) (jobs : JobRuntime)
      → All (Runs job_key (spawn_active job_key is_active bs jobs)) (filter is_active bs)
  unfolding spawn_active
  spawn_active-Runs [] jobs = tt
  spawn_active-Runs (b ∷ rest) jobs = elim (Bool-cases (is_active b)) [
    | inl going ↦
        rw (spawn_active, going)
          (
            spawn_active-keeps rest (register (job_key b) jobs).1 (job_key b)
                (register-has (job_key b) jobs),
            spawn_active-Runs rest (register (job_key b) jobs).1,
          )
    | inr over ↦ rw (spawn_active, over) (spawn_active-Runs rest jobs)
  ]

  spawn_active-Runs_again :
      {U : Type 0} (key : U → String) (bs : List T) (more : List U) (jobs : JobRuntime)
      → All (Runs key jobs) more
      → All (Runs key (spawn_active job_key is_active bs jobs)) more
  spawn_active-Runs_again key bs [] jobs h = tt
  spawn_active-Runs_again key bs (b ∷ more) jobs h =
      (spawn_active-keeps bs jobs (key b) h.0, spawn_active-Runs_again key bs more jobs h.1)

-- A listing leaves the store.
list_all_json_state :
    (T : Type 0) ⦃codec : Codec T⦄ (tenant_hash : String → String) (n : String) (s : Memory)
    → (list_all_json tenant_hash {T = T} n s).1 ≡ s
unfolding list_all_json
list_all_json_state T tenant_hash n s = elim (Result-cases (validate_component "namespace" n)) [
  | inl (u, q) ↦ rw (list_all_json, q) refl
  | inr (e, q) ↦ rw (list_all_json, q) refl
]

module _ (tenant_hash : String → String) ⦃openai_codec : Codec OpenAiBatchRecord⦄
    ⦃anthropic_codec : Codec AnthropicBatchRecord⦄ (s : Service) where
  recovered_openai :
      (bs : List OpenAiBatchRecord)
      → (list_all_json tenant_hash openai_batches_namespace s.durable).0 ≡ ok bs
      → recover_openai_batches tenant_hash s ≡ record s {
        jobs =
            spawn_active openai_batch_job_key
              (λ (b : OpenAiBatchRecord). active b.status)
              bs
              s.jobs;
      }
  unfolding recover_openai_batches spawn_listed
  recovered_openai bs h =
      rw (h, list_all_json_state OpenAiBatchRecord tenant_hash openai_batches_namespace s.durable)
        refl

  recovered_anthropic :
      (bs : List AnthropicBatchRecord)
      → (list_all_json tenant_hash anthropic_batches_namespace s.durable).0 ≡ ok bs
      → recover_anthropic_batches tenant_hash s
        ≡ record s { jobs = spawn_active anthropic_batch_job_key anthropic_active bs s.jobs }
  unfolding recover_anthropic_batches spawn_listed
  recovered_anthropic bs h =
      rw
        (
          h,
          list_all_json_state AnthropicBatchRecord tenant_hash anthropic_batches_namespace
              s.durable,
        )
        refl

-- Where the batches can be listed, after the recovery the job of each batch that is not over is
-- running, of both kinds.
pub recover_batches-Runs :
    (tenant_hash : String → String) ⦃openai_codec : Codec OpenAiBatchRecord⦄
    ⦃anthropic_codec : Codec AnthropicBatchRecord⦄ (s : Service) {openai : List OpenAiBatchRecord}
    {anthropic : List AnthropicBatchRecord}
    → (list_all_json tenant_hash openai_batches_namespace s.durable).0 ≡ ok openai
    → (list_all_json tenant_hash anthropic_batches_namespace s.durable).0 ≡ ok anthropic
    → All
        (Runs openai_batch_job_key (recover_batches tenant_hash s).jobs)
        (filter (λ (b : OpenAiBatchRecord). active b.status) openai)
      × All
          (Runs anthropic_batch_job_key (recover_batches tenant_hash s).jobs)
          (filter anthropic_active anthropic)
unfolding recover_batches
recover_batches-Runs tenant_hash s {openai} {anthropic} h k =
    let is_active = λ (b : OpenAiBatchRecord). active b.status in
    let jobs = spawn_active openai_batch_job_key is_active openai s.jobs in
    rw
      (
        recovered_openai tenant_hash s openai h,
        recovered_anthropic tenant_hash (record s { jobs = jobs }) anthropic k,
      )
      (
        spawn_active-Runs_again anthropic_batch_job_key anthropic_active openai_batch_job_key
            anthropic (filter is_active openai) jobs
            (spawn_active-Runs openai_batch_job_key is_active openai s.jobs),
        spawn_active-Runs anthropic_batch_job_key anthropic_active anthropic jobs,
      )
