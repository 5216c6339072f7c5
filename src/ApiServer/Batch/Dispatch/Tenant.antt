-- ===== src/ApiServer/Batch/Dispatch/Tenant.antt =====
-- The tenant under which the requests of a batch run.
use miya_api.Prelude.{
  ℕ, ◌≡◌, refl, leb, Bool, true, false, ◌&&◌, String, Option, none, some, unwrap_or, List, [], ◌∷◌,
  Result, ok, all_chars, all_chars_mono, text_ord, ◌=?◌, =?_iff, if◌then◌else◌, Bool-cases, inl,
  inr, arith, ap,
}
use miya_api.Protocol.Json.{
  Value, null, boolean, string, object, Fields, end, field, get, get_field,
}
use miya_api.ApiServer.RequestContext.{
  HeaderMap, identity_char, identity_component, find_map, and_then, metadata_identity, from_headers,
  with_metadata_overrides, tenant_of,
}
use miya_api.ApiServer.RequestContext.Identity.{
  IsIdentity, IsHex, identity_component_fixed, from_headers-IsIdentity,
}
use miya_api.ApiServer.Batch.Dispatch.{
  set_field, metadata_fields, enforce_batch_tenant, not_in_background, openai_item_body,
  anthropic_item_body, tenant_headers,
}

pub get_field-set_field :
    (k j : String) (v : Value) (fs : Fields)
    → get_field j (set_field k v fs) ≡ (if k =? j then some v else get_field j fs)
unfolding set_field
get_field-set_field k j v end = refl
get_field-set_field k j v (field i w rest) = elim (Bool-cases (i =? k)) [
  | inl same ↦ rw (set_field, same, (=?_iff i k).0 same) (ground (arith))
  | inr other ↦
      rw (set_field, other)
        (ground (arith, get_field-set_field k j v rest, =?_iff i j, =?_iff k j, =?_iff i k, other))
]

-- The metadata that a handler finds in a body.
abbrev pub metadata_of : Value → Value
metadata_of body = unwrap_or (get "metadata" body) null

metadata_same :
    (fs gs : Fields)
    → get_field "metadata" fs ≡ get_field "metadata" gs
    → metadata_of (object fs) ≡ metadata_of (object gs)
metadata_same fs gs h = ap (λ (o : Option Value). unwrap_or o null) h

-- The bytes of a header value that can be read as text.
abbrev pub is_visible : ℕ → Bool
is_visible c = leb 32 c && leb c 126

module _ (sha256_hex : String → String) where
  -- The tenant that a handler finds for a request.
  abbrev pub request_tenant : HeaderMap → Value → String
  request_tenant headers body =
      tenant_of
        (with_metadata_overrides sha256_hex (from_headers sha256_hex headers) (metadata_of body))

  metadata_identity_first :
      (metadata : Value) (name : String) (names : List String) (t : String)
      → get name metadata ≡ some (string t)
      → identity_component sha256_hex t ≡ some t
      → metadata_identity sha256_hex metadata (name ∷ names) ≡ some t
  unfolding metadata_identity
  metadata_identity_first metadata name names t h k =
      rw (metadata_identity, find_map, and_then, h, k) refl

  enforced :
      (t : String) (h : HeaderMap) (ms : Fields)
      → IsIdentity t
      → tenant_of (
          with_metadata_overrides sha256_hex
            (from_headers sha256_hex h)
            (object (set_field "tenant_id" (string t) ms)))
        ≡ t
  unfolding with_metadata_overrides
  enforced t h ms name =
      rw
        (metadata_identity_first (object (set_field "tenant_id" (string t) ms)) "tenant_id"
          ("tenant" ∷ "organization_id" ∷ "project_id" ∷ "user_id" ∷ []) t
          (get_field-set_field "tenant_id" "tenant_id" (string t) ms)
          (identity_component_fixed sha256_hex t name))
        refl

  metadata_enforced :
      (t : String) (fs : Fields)
      → metadata_of (object (enforce_batch_tenant t fs))
        ≡ object (set_field "tenant_id" (string t) (metadata_fields (get_field "metadata" fs)))
  unfolding enforce_batch_tenant
  metadata_enforced t fs =
      ap (λ (o : Option Value). unwrap_or o null)
        (get_field-set_field "metadata" "metadata"
          (object (set_field "tenant_id" (string t) (metadata_fields (get_field "metadata" fs))))
          fs)

  metadata_not_in_background :
      (endpoint : String) (fs : Fields)
      → metadata_of (object (not_in_background endpoint fs)) ≡ metadata_of (object fs)
  metadata_not_in_background endpoint fs = elim (Bool-cases (endpoint =? "/v1/responses")) [
    | inl responses ↦ rw responses (
        metadata_same (set_field "background" (boolean false) fs) fs
          (get_field-set_field "background" "metadata" (boolean false) fs))
    | inr other ↦ rw other refl
  ]

  -- Whoever sends a batch, its requests are dispatched: the headers can be made, and the handler
  -- finds the tenant of the batch for each request whose body is an object, whatever tenant its
  -- metadata names: the batch's tenant replaces that of the metadata, which would override the
  -- headers of a request that is sent alone. Digests are in hexadecimal, and visible text is the
  -- value of a header.
  pub request_tenant-item_body :
      IsHex sha256_hex
      → (header_value : String → Result String String)
      → ((v : String) → all_chars is_visible v ≡ true → header_value v ≡ ok v)
      → (sender : HeaderMap) (endpoint : String) (fs : Fields)
      → (h : HeaderMap) × (tenant_headers header_value (tenant_of (from_headers sha256_hex sender))
          ≡ ok h)
        × (request_tenant h
              (openai_item_body (tenant_of (from_headers sha256_hex sender)) endpoint (object fs))
            ≡ tenant_of (from_headers sha256_hex sender))
        × (request_tenant h
              (anthropic_item_body (tenant_of (from_headers sha256_hex sender)) (object fs))
            ≡ tenant_of (from_headers sha256_hex sender))
  unfolding tenant_headers openai_item_body anthropic_item_body
  request_tenant-item_body hex header_value visible sender endpoint fs =
      let t = tenant_of (from_headers sha256_hex sender) in
      let name = from_headers-IsIdentity sha256_hex hex sender in
      let clean = all_chars_mono identity_char is_visible (λ c h. ground (arith, h)) t name.2 in
      let plain = set_field "stream" (boolean false) fs in
      let h : HeaderMap = λ n. if n =? "x-tenant-id" then some t else none in
      (
        h,
        rw (tenant_headers, visible t clean) refl,
        rw
            (
              metadata_not_in_background endpoint (enforce_batch_tenant t plain),
              metadata_enforced t plain,
            )
            (enforced t h (metadata_fields (get_field "metadata" plain)) name),
        rw (metadata_enforced t plain)
            (enforced t h (metadata_fields (get_field "metadata" plain)) name),
      )
