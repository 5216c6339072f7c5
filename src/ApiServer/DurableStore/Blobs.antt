-- ===== src/ApiServer/DurableStore/Blobs.antt =====
-- What the blobs of the store answer after a write, and what leaves them alone.
use miya_api.Prelude.{
  ℕ, ◌≡◌, refl, true, String, some, List, Result, ok, err, Result-cases, text_ord, =?_refl, inl,
  inr, Bool-cases, arith, ap, ◌∙◌,
}
use miya_api.BTreeMap.{get, insert, get-insert}
use miya_api.ApiServer.DurableStore.{
  Memory, Codec, validate_component, validated, memory_key, put_json, put_blob, get_blob,
}
use miya_api.ApiServer.DurableStore.Objects.{
  accepts, accepts-valid, validated_ok, validated_refused,
}

objects_only :
    {T : Type 0} ⦃codec : Codec T⦄ (tenant_hash : String → String) (n t i : String) (x : T)
    (s : Memory)
    → (put_json tenant_hash n t i x s).1.blobs ≡ s.blobs
unfolding put_json
objects_only ⦃codec⦄ tenant_hash n t i x s = elim (Bool-cases (accepts n i)) [
  | inr bad ↦ ap (λ (m : Memory). m.blobs) (validated_refused n i _ s bad)
  | inl good ↦
      let (u, u', q, q') = accepts-valid n i good in
      rw (validated_ok n i _ s u u' q q')
        (elim (Result-cases (codec.to_value x)) [ inl (v, r) ↦ rw r refl | inr (e, r) ↦ rw r refl ])
]

module _ (tenant_hash : String → String) (n t i : String) where
  get_blob_valid :
      (s : Memory)
      → accepts n i ≡ true
      → get_blob tenant_hash n t i s ≡ (ok (get (memory_key tenant_hash n t i) s.blobs), s)
  unfolding get_blob
  get_blob_valid s a =
      let (u, u', q, q') = accepts-valid n i a in rw (validated_ok n i _ s u u' q q') refl

  -- A read depends on the blobs only.
  get_blob_same :
      (s s' : Memory)
      → accepts n i ≡ true
      → s'.blobs ≡ s.blobs
      → (get_blob tenant_hash n t i s').0 ≡ (get_blob tenant_hash n t i s).0
  get_blob_same s s' a same = rw (get_blob_valid s a, get_blob_valid s' a, same) refl

  pub put_blob_valid :
      (bytes : List ℕ) (s : Memory)
      → accepts n i ≡ true
      → put_blob tenant_hash n t i bytes s
        ≡ (ok tt, record s { blobs = insert (memory_key tenant_hash n t i) bytes s.blobs })
  unfolding put_blob
  put_blob_valid bytes s a =
      let (u, u', q, q') = accepts-valid n i a in rw (validated_ok n i _ s u u' q q') refl

  pub put_blob-accepts :
      (bytes : List ℕ) (s : Memory) (u : Unit {0})
      → (put_blob tenant_hash n t i bytes s).0 ≡ ok u
      → accepts n i ≡ true
  unfolding put_blob validated
  put_blob-accepts bytes s u h =
      from (validate_component "namespace" n) (validate_component "id" i) refl refl h
    where
      from :
          (a b : Result String (Unit {0}))
          → a ≡ validate_component "namespace" n
          → b ≡ validate_component "id" i
          → (put_blob tenant_hash n t i bytes s).0 ≡ ok u
          → accepts n i ≡ true
      from (ok y) (ok z) p q h = rw (← p, ← q) refl
      from (ok y) (err e) p q h = absurd (ground (arith, p, q, h))
      from (err e) b p q h = absurd (ground (arith, p, h))

  -- A blob that is written is read back.
  pub get_blob-put_blob :
      (bytes : List ℕ) (s : Memory) (u : Unit {0})
      → (put_blob tenant_hash n t i bytes s).0 ≡ ok u
      → (get_blob tenant_hash n t i (put_blob tenant_hash n t i bytes s).1).0 ≡ ok (some bytes)
  get_blob-put_blob bytes s u h =
      let a = put_blob-accepts bytes s u h in
      let key = memory_key tenant_hash n t i in
      rw
        (put_blob_valid bytes s a, get_blob_valid (record s { blobs = insert key bytes s.blobs }) a)
        (rw (get-insert key key bytes s.blobs, =?_refl key) refl)

  -- A blob stays when an object is written.
  pub get_blob-put_json :
      {T : Type 0} ⦃codec : Codec T⦄ (n' t' i' : String) (x : T) (s : Memory) (bytes : List ℕ)
      → accepts n i ≡ true
      → (get_blob tenant_hash n t i s).0 ≡ ok (some bytes)
      → (get_blob tenant_hash n t i (put_json tenant_hash n' t' i' x s).1).0 ≡ ok (some bytes)
  get_blob-put_json n' t' i' x s bytes a h =
      get_blob_same s (put_json tenant_hash n' t' i' x s).1 a
        (objects_only tenant_hash n' t' i' x s)
      ∙ h
