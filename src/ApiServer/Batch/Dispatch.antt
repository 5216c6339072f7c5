-- ===== src/ApiServer/Batch/Dispatch.antt =====
-- The dispatch of the requests of a batch in crates/api-server/src/batch_api.rs: the body and the
-- headers that a request is given, and the answer that is kept of it.

pub mod Tenant
use Prim.Native.String.{◌++◌ as concat}
use miya_api.Prelude.{
  ℕ, Bool, true, false, String, Option, none, some, List, Result, ok, err, Method, pure, fail, lift,
  ◌>>=◌, text_ord, ◌=?◌, if◌then◌else◌,
}
use miya_api.Protocol.Json.{
  Value, null, boolean, number, other_number, string, array, object, Fields, end, field, get_field,
}
use miya_api.ApiServer.Batch.{BatchDispatchResult}
use miya_api.ApiServer.RequestContext.{HeaderMap}

-- `map.insert(key, value)`: a value at a key that is there is replaced.
unfoldable pub set_field : String → Value → Fields → Fields
set_field k v end = field k v end
set_field k v (field j w rest) = if j =? k then field j v rest else field j w (set_field k v rest)

-- The fields of a metadata object, and none where there is something else or nothing.
abbrev pub metadata_fields : Option Value → Fields
metadata_fields (some (object ms)) = ms
metadata_fields (some null) = end
metadata_fields (some (boolean b)) = end
metadata_fields (some (number n)) = end
metadata_fields (some (other_number t)) = end
metadata_fields (some (string t)) = end
metadata_fields (some (array vs)) = end
metadata_fields none = end

unfoldable pub enforce_batch_tenant : String → Fields → Fields
unfolding set_field
enforce_batch_tenant tenant_id fs =
    set_field "metadata"
      (object
        (set_field "tenant_id" (string tenant_id) (metadata_fields (get_field "metadata" fs))))
      fs

-- `body.as_object_mut()`, and what is done to the object
abbrev pub on_object : (Fields → Fields) → Value → Value
on_object f (object fs) = object (f fs)
on_object f null = null
on_object f (boolean b) = boolean b
on_object f (number n) = number n
on_object f (other_number t) = other_number t
on_object f (string t) = string t
on_object f (array vs) = array vs

abbrev pub not_in_background : String → Fields → Fields
not_in_background endpoint fs =
    if endpoint =? "/v1/responses" then set_field "background" (boolean false) fs else fs

-- the bodies that are dispatched
unfoldable pub openai_item_body : String → String → Value → Value
unfolding set_field enforce_batch_tenant
openai_item_body tenant_id endpoint body =
    on_object
      (λ fs.
        not_in_background endpoint
          (enforce_batch_tenant tenant_id (set_field "stream" (boolean false) fs)))
      body

unfoldable pub anthropic_item_body : String → Value → Value
unfolding set_field enforce_batch_tenant
anthropic_item_body tenant_id body =
    on_object (λ fs. enforce_batch_tenant tenant_id (set_field "stream" (boolean false) fs)) body

-- `header_value` is `HeaderValue::from_str` of the crate http, with `to_str` of what it gives.
unfoldable pub tenant_headers : (String → Result String String) → String → Result String HeaderMap
tenant_headers header_value tenant_id = elim (header_value tenant_id) [
  | ok v ↦ ok (λ name. if name =? "x-tenant-id" then some v else none)
  | err e ↦ err e
]

-- A response with its body as `to_bytes` reads it.
pub record Response : Type 0 where
  pub status : ℕ
  pub bytes : Result String (List ℕ)

-- The handlers that requests of a batch go to, and what else the dispatch uses of other code:
-- `from_slice` of serde_json, and `from_utf8_lossy`.
pub record Routes (S : Type 0) : Type 0 where
  pub chat_completions : HeaderMap → Value → S → Response × S
  pub completions : HeaderMap → Value → S → Response × S
  pub responses : HeaderMap → Value → S → Response × S
  pub messages : HeaderMap → Value → S → Response × S
  pub header_value : String → Result String String
  pub from_slice : List ℕ → Option Value
  pub from_utf8_lossy : List ℕ → String

module _ {S : Type 0} (r : Routes S) where
  unfoldable pub response_to_batch_result : Response → Result String BatchDispatchResult
  response_to_batch_result response = elim response.bytes [
    | err e ↦ err e
    | ok bytes ↦ ok (record {
      status_code = response.status;
      body = elim (r.from_slice bytes) [
        | some v ↦ v
        | none ↦ object (field "body" (string (r.from_utf8_lossy bytes)) end)
      ];
    })
  ]

  -- a handler with its answer
  abbrev pub answered : (S → Response × S) → Method S String BatchDispatchResult
  answered handler s = (response_to_batch_result (handler s).0, (handler s).1)

  unfoldable pub route : String → HeaderMap → Value → Method S String BatchDispatchResult
  unfolding response_to_batch_result
  route endpoint headers body =
      if endpoint =? "/v1/chat/completions"
      then answered (r.chat_completions headers body)
      else if endpoint =? "/v1/completions"
      then answered (r.completions headers body)
      else if endpoint =? "/v1/responses"
      then answered (r.responses headers body)
      else fail (concat "unsupported batch endpoint: " endpoint)

  unfoldable pub dispatch_openai_batch_item :
      String → String → Value → Method S String BatchDispatchResult
  unfolding tenant_headers openai_item_body route
  dispatch_openai_batch_item tenant_id endpoint body = do
    headers ← lift (tenant_headers r.header_value tenant_id)
    route endpoint headers (openai_item_body tenant_id endpoint body)

  unfoldable pub dispatch_anthropic_batch_item :
      String → Value → Method S String BatchDispatchResult
  unfolding tenant_headers anthropic_item_body response_to_batch_result
  dispatch_anthropic_batch_item tenant_id body = do
    headers ← lift (tenant_headers r.header_value tenant_id)
    answered (r.messages headers (anthropic_item_body tenant_id body))
