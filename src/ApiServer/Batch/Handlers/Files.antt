-- ===== src/ApiServer/Batch/Handlers/Files.antt =====
-- Uploads are read back, and the input of a batch at work is not deleted.
use Prim.Native.String.{◌++◌ as concat}
use miya_api.Prelude.{
  ℕ, ◌+◌, ◌≡◌, refl, String, true, not, ◌&&◌, Option, some, List, any, length, leb, Result-cases,
  ok, err, Post, Post-of_ok, Post-then, Post-continue, outcome_path, text_ord, ◌=?◌, inl, inr,
}
use miya_api.ApiServer.DurableStore.{
  Codec, validated, get_json, put_json, put_blob, get_blob, list_json,
}
use miya_api.ApiServer.DurableStore.Objects.{accepts, get_json-put_json, get_json_state}
use miya_api.ApiServer.DurableStore.Blobs.{get_blob-put_blob, get_blob-put_json, put_blob-accepts}
use miya_api.ApiServer.Batch.{
  StoredOpenAiFile, OpenAiBatchRecord, openai_files_namespace, openai_file_blobs_namespace,
  openai_batches_namespace,
}
use miya_api.ApiServer.Batch.Service.{Service, Environment, stored, unix_timestamp_secs, new_uuid}
use miya_api.ApiServer.Batch.Handlers.{
  invalid_request, conflict, calling, recast, recast-Post, found_or, reject_unless, store_record,
  store_upload, files_create, files_content, files_delete, uses, not_blank, known_purpose,
  max_openai_batch_file_bytes, uploaded,
}

module _ (env : Environment) (tenant_hash : String → String) ⦃file_codec : Codec StoredOpenAiFile⦄
    ⦃batch_codec : Codec OpenAiBatchRecord⦄ (tenant_id : String) where
  -- The file and its bytes are there.
  abbrev IsThere : StoredOpenAiFile → List ℕ → Service → Type 0
  IsThere f bytes s =
      ((get_json tenant_hash openai_files_namespace tenant_id f.id s.durable).0 ≡ ok (some f))
      × ((get_blob tenant_hash openai_file_blobs_namespace tenant_id f.id s.durable).0
          ≡ ok (some bytes))

  -- The content of the file is the file with the bytes.
  abbrev pub Readable : List ℕ → StoredOpenAiFile → Service → Type 0
  Readable bytes f s = (files_content env tenant_hash tenant_id f.id s).0 ≡ ok (f, bytes)

  IsThere-Readable :
      (f : StoredOpenAiFile) (bytes : List ℕ) (s : Service) → IsThere f bytes s → Readable bytes f s
  unfolding files_content
  IsThere-Readable f bytes s h =
      let file =
        outcome_path (get_json tenant_hash openai_files_namespace tenant_id f.id s.durable) h.0 (
          get_json_state StoredOpenAiFile tenant_hash openai_files_namespace tenant_id f.id
            s.durable) in
      rw (file, h.1) refl

  store_record-Readable :
      (f : StoredOpenAiFile) (bytes : List ℕ) (s : Service)
      → accepts openai_file_blobs_namespace f.id ≡ true
      → (get_blob tenant_hash openai_file_blobs_namespace tenant_id f.id s.durable).0
        ≡ ok (some bytes)
      → Post (Readable bytes) (store_record env tenant_hash tenant_id f s)
  unfolding store_record put_json validated
  store_record-Readable f bytes s a h =
      let put = put_json tenant_hash openai_files_namespace tenant_id f.id f s.durable in
      elim (Result-cases put.0) [
        | inr (e, q) ↦ rw q tt
        | inl (u, q) ↦ rw q (
            IsThere-Readable f bytes (record s { durable = put.1 })
              (
                get_json-put_json tenant_hash openai_files_namespace tenant_id f.id f s.durable u q,
                get_blob-put_json tenant_hash openai_file_blobs_namespace tenant_id f.id
                    openai_files_namespace tenant_id f.id f s.durable bytes a h,
              ))
      ]

  -- After the write of the blob.
  abbrev BlobThere : StoredOpenAiFile → List ℕ → Unit {0} → Service → Type 0
  BlobThere f bytes u s =
      (accepts openai_file_blobs_namespace f.id ≡ true)
      × ((get_blob tenant_hash openai_file_blobs_namespace tenant_id f.id s.durable).0
          ≡ ok (some bytes))

  store_upload-Readable :
      (f : StoredOpenAiFile) (bytes : List ℕ) (s : Service)
      → Post (Readable bytes) (store_upload env tenant_hash tenant_id f bytes s)
  unfolding store_upload
  store_upload-Readable f bytes s =
      let x = stored (put_blob tenant_hash openai_file_blobs_namespace tenant_id f.id bytes) s in
      Post-continue (Readable bytes) (BlobThere f bytes) (recast x)
        (λ u. store_record env tenant_hash tenant_id f)
        (recast-Post (BlobThere f bytes) x (
          Post-of_ok (BlobThere f bytes) x (λ u h. (
            put_blob-accepts tenant_hash openai_file_blobs_namespace tenant_id f.id bytes s.durable
                u h,
            get_blob-put_blob tenant_hash openai_file_blobs_namespace tenant_id f.id bytes s.durable
                u h,
          ))))
        (λ u s h. store_record-Readable f bytes s h.0 h.1)

  -- An upload that succeeds is read back: the content of the file that it answers with is that file
  -- and the bytes that were sent.
  pub files_content-files_create :
      (purpose filename : Option String) (bytes : List ℕ) (expires_after : Option ℕ) (s : Service)
      → Post
          (Readable bytes)
          (files_create env tenant_hash tenant_id purpose filename (some bytes) expires_after s)
  unfolding files_create
  files_content-files_create purpose filename bytes expires_after s =
      let Q = Readable bytes in
      Post-then Q (found_or (invalid_request "file upload requires purpose") (not_blank purpose) s)
        _
        λ purpose s.
          Post-then Q
            (reject_unless (known_purpose purpose)
              (invalid_request (concat "unsupported file purpose: " purpose)) s)
            _
            λ u s.
              Post-then Q
                (found_or (invalid_request "file upload requires a filename") (not_blank filename)
                  s)
                _
                λ filename s.
                  Post-then Q
                    (reject_unless
                      (not (
                        purpose =? "batch" && leb (max_openai_batch_file_bytes + 1) (length bytes)))
                      (invalid_request "batch files must not exceed 209715200 bytes") s)
                    _
                    λ u s. Post-then Q (calling (unix_timestamp_secs env) s) _ λ created_at s.
                      Post-then Q (calling (new_uuid env) s) _ λ uuid s.
                        store_upload-Readable
                          (uploaded tenant_id (concat "file-" uuid) (length bytes) filename purpose
                            created_at expires_after)
                          bytes s

  -- The input of a batch that is not over is not deleted: the deletion is refused and changes
  -- nothing.
  pub files_delete_used :
      (file_id : String) (s : Service) (batches : List OpenAiBatchRecord)
      → list_json tenant_hash openai_batches_namespace tenant_id s.durable ≡ (ok batches, s.durable)
      → any (uses env tenant_hash file_id) batches ≡ true
      → files_delete env tenant_hash tenant_id file_id s
        ≡ (err (conflict (concat "file " (concat file_id " is still used by an active batch"))), s)
  unfolding files_delete
  files_delete_used file_id s batches h used = rw (h, used) refl
