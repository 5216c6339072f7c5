-- ===== src/ApiServer/Batch/Service.antt =====
-- What a batch works with: the durable store, the clock and the source of new ids.
use Prim.Native.String.{◌++◌ as concat}
use miya_api.Prelude.{
  ℕ, ◌+◌, String, Option, none, some, List, [], ◌∷◌, ◌++◌, length, Result, ok, err, Method, pure,
  ◌>>=◌, ◌>>◌,
}
use miya_api.Protocol.Json.{Value}
use miya_api.ApiServer.DurableStore.{Memory, Codec, put_json, put_blob}
use miya_api.ApiServer.JobRuntime.{JobRuntime}
use miya_api.ApiServer.Batch.{StoredOpenAiFile, openai_files_namespace, openai_file_blobs_namespace}

-- The parts of `AppState` that the batch API uses, with how often the clock and the source of ids
-- were read.
pub record Service : Type 0 where
  pub durable : Memory
  pub jobs : JobRuntime
  pub reads : ℕ

-- The readings of the clock, in seconds, and of `Uuid::new_v4`.
pub record Environment : Type 0 where
  pub time_at : ℕ → ℕ
  pub uuid_at : ℕ → String

-- A call of the durable store.
abbrev pub stored : {A : Type 0} → Method Memory String A → Method Service String A
stored method s =
    let (result, durable) = method s.durable in (result, record s { durable = durable })

abbrev pub unix_timestamp_secs : Environment → Method Service String ℕ
unix_timestamp_secs env s = (ok (env.time_at s.reads), record s { reads = s.reads + 1 })

abbrev pub new_uuid : Environment → Method Service String String
new_uuid env s = (ok (env.uuid_at s.reads), record s { reads = s.reads + 1 })

-- the file of an output
abbrev pub output_file : String → String → String → List ℕ → String → ℕ → StoredOpenAiFile
output_file tenant_id batch_id kind bytes id created_at = record {
  tenant_id = tenant_id;
  id = id;
  bytes = length bytes;
  created_at = created_at;
  filename = concat batch_id (concat "-" (concat kind ".jsonl"));
  purpose = "batch_output";
  status = "processed";
  expires_at = none;
  status_details = none;
}

-- `to_writer` is `serde_json::to_writer`: the bytes of a value.
module _ (to_writer : Value → Result String (List ℕ)) where
  unfoldable pub jsonl_bytes : List Value → Result String (List ℕ)
  jsonl_bytes [] = ok []
  jsonl_bytes (line ∷ rest) = elim (to_writer line) [
    | err e ↦ err e
    | ok bytes ↦ elim (jsonl_bytes rest) [ ok more ↦ ok (bytes ++ (b'\n' ∷ more)) | err e ↦ err e ]
  ]

  module _ (env : Environment) (tenant_hash : String → String) where
    unfoldable pub write_jsonl_blob :
        String → String → String → List Value → Method Service String (Unit {0})
    unfolding jsonl_bytes
    write_jsonl_blob namespace tenant_id id lines s = elim (jsonl_bytes lines) [
      | err e ↦ (err e, s)
      | ok bytes ↦ stored (put_blob tenant_hash namespace tenant_id id bytes) s
    ]

    module _ ⦃file_codec : Codec StoredOpenAiFile⦄ where
      -- the writes of an output file whose id and time are known
      unfoldable pub write_output_file :
          String → String → String → List ℕ → String → ℕ → Method Service String (Option String)
      write_output_file tenant_id batch_id kind bytes id created_at = do
        stored (put_blob tenant_hash openai_file_blobs_namespace tenant_id id bytes)
        stored (
            put_json tenant_hash openai_files_namespace tenant_id id
              (output_file tenant_id batch_id kind bytes id created_at))
        pure (some id)

      unfoldable pub write_openai_batch_output_file :
          String → String → String → List Value → Method Service String (Option String)
      unfolding jsonl_bytes write_output_file
      write_openai_batch_output_file tenant_id batch_id kind [] = pure none
      write_openai_batch_output_file tenant_id batch_id kind (line ∷ lines) = do
        uuid ← new_uuid env
        bytes ← λ s. (jsonl_bytes (line ∷ lines), s)
        created_at ← unix_timestamp_secs env
        write_output_file tenant_id batch_id kind bytes (concat "file-" uuid) created_at
