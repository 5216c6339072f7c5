-- ===== src/Tests/Identities.antt =====
-- The tenant of a request of a batch.
use miya_api.Prelude.{
  ◌≡◌, refl, String, none, some, ok, text_ord, ◌=?◌, trim, all_chars, if◌then◌else◌, arith,
}
use miya_api.Protocol.Json.{string, object, end, field}
use miya_api.ContextStore.{take_chars}
use miya_api.ApiServer.RequestContext.{
  HeaderMap, identity_component, from_headers, header_identity, tenant_of,
}
use miya_api.ApiServer.RequestContext.Identity.{IsHex}
use miya_api.ApiServer.Batch.Dispatch.{openai_item_body, anthropic_item_body, tenant_headers}
use miya_api.ApiServer.Batch.Dispatch.Tenant.{request_tenant, request_tenant-item_body}

abbrev digest : String → String
digest v = "0f"

digest-IsHex : IsHex digest
unfolding take_chars all_chars
digest-IsHex v = (omega arith, refl)

-- the sender's headers, with a name that is not clean
abbrev sender : HeaderMap
sender name = if name =? "x-tenant-id" then some " acme " else none

sender_test : tenant_of (from_headers digest sender) ≡ "acme"
unfolding from_headers header_identity identity_component trim all_chars
sender_test = refl

-- a name that is not clean is replaced by its digest
unclean_test : identity_component digest "a b" ≡ some "sha256-0f"
unfolding identity_component trim all_chars take_chars
unclean_test = refl

request_tenant-item_body_example :
    (h : HeaderMap) × (tenant_headers ok (tenant_of (from_headers digest sender)) ≡ ok h)
    × (request_tenant digest h (
          openai_item_body
            (tenant_of (from_headers digest sender))
            "/v1/responses"
            (object (field "metadata" (object (field "tenant_id" (string "zed") end)) end)))
        ≡ tenant_of (from_headers digest sender))
    × (request_tenant digest h (
          anthropic_item_body
            (tenant_of (from_headers digest sender))
            (object (field "metadata" (object (field "tenant_id" (string "zed") end)) end)))
        ≡ tenant_of (from_headers digest sender))
request_tenant-item_body_example =
    request_tenant-item_body digest digest-IsHex ok (λ v h. refl) sender "/v1/responses"
      (field "metadata" (object (field "tenant_id" (string "zed") end)) end)
