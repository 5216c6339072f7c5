-- ===== src/ApiServer/RequestContext.antt =====
-- `RequestContext` of crates/api-server/src/lib.rs: who sent a request, by its headers and by the
-- metadata of its body.
pub mod Identity
use Prim.Native.String.{◌++◌ as concat, len}
use miya_api.Prelude.{
  ℕ, leb, Bool, true, false, ◌&&◌, ◌||◌, ◌==◌, String, Option, none, some, unwrap_or, List, [], ◌∷◌,
  trim, text_is_empty, all_chars, is_ascii_alphanumeric, if◌then◌else◌,
}
use miya_api.Protocol.Json.{Value, get, as_str}
use miya_api.Protocol.Ids.{TenantId, RequestId, ConversationFingerprint}
use miya_api.ContextStore.{take_chars}

-- The headers by their names: the text of a value that has one (`to_str`).
abbrev pub HeaderMap : Type 0
HeaderMap = String → Option String

abbrev pub default_tenant_id : String
default_tenant_id = "default"

abbrev pub identity_char : ℕ → Bool
identity_char c =
    is_ascii_alphanumeric c || c == b'-' || c == b'_' || c == b'.' || c == b':' || c == b'@'

pub record RequestContext : Type 0 where
  pub tenant_id : Option String
  pub request_id : Option String
  pub conversation_id : Option String

abbrev pub find_map : (String → Option String) → List String → Option String
find_map f [] = none
find_map f (n ∷ ns) = elim (f n) [ some t ↦ some t | none ↦ find_map f ns ]

abbrev pub or_else : Option String → Option String → Option String
or_else (some t) o = some t
or_else none o = o

abbrev pub and_then : {A : Type 0} → Option A → (A → Option String) → Option String
and_then none f = none
and_then (some a) f = f a

-- `sha256_hex` is a digest of the crate sha2, in hexadecimal.
module _ (sha256_hex : String → String) where
  abbrev pub hashed : String → String
  hashed value = concat "sha256-" (take_chars 32 (sha256_hex value))

  unfoldable pub identity_component : String → Option String
  identity_component value =
      let trimmed = trim value in
      if text_is_empty trimmed
      then none
      else if leb (len trimmed) 128 && all_chars identity_char trimmed
      then some trimmed
      else some (hashed trimmed)

  unfoldable pub header_identity : HeaderMap → List String → Option String
  header_identity headers names =
      find_map (λ name. and_then (headers name) identity_component) names

  unfoldable pub metadata_identity : Value → List String → Option String
  metadata_identity metadata names =
      find_map (λ name. and_then (and_then (get name metadata) as_str) identity_component) names

  unfoldable pub from_headers : HeaderMap → RequestContext
  from_headers headers = record {
    tenant_id =
        header_identity headers
          ("x-tenant-id" ∷ "x-organization-id" ∷ "x-project-id" ∷ "x-user-id" ∷ []);
    request_id = header_identity headers ("x-request-id" ∷ "x-correlation-id" ∷ []);
    conversation_id = header_identity headers ("x-conversation-id" ∷ "x-thread-id" ∷ []);
  }

  unfoldable pub with_metadata_overrides : RequestContext → Value → RequestContext
  with_metadata_overrides c metadata = record {
    tenant_id =
        or_else
          (metadata_identity metadata
            ("tenant_id" ∷ "tenant" ∷ "organization_id" ∷ "project_id" ∷ "user_id" ∷ []))
          c.tenant_id;
    request_id =
        or_else (metadata_identity metadata ("request_id" ∷ "correlation_id" ∷ [])) c.request_id;
    conversation_id =
        or_else (metadata_identity metadata ("conversation_id" ∷ "thread_id" ∷ "session_id" ∷ []))
          c.conversation_id;
  }

  unfoldable pub conversation_fingerprint :
      RequestContext → String → TenantId → String → ConversationFingerprint
  conversation_fingerprint c source_format tenant_id messages_debug = sha256_hex (
      concat source_format (
        concat ":tenant=" (
          concat tenant_id (elim c.conversation_id [
            | some conversation_id ↦ concat ":conversation=" conversation_id
            | none ↦ concat ":messages=" messages_debug
          ]))))

-- `RequestContext::tenant_id`
abbrev pub tenant_of : RequestContext → TenantId
tenant_of c = unwrap_or c.tenant_id default_tenant_id

-- `RequestContext::request_id`, where a new id is `uuid`
abbrev pub request_of : RequestContext → String → RequestId
request_of c uuid = unwrap_or c.request_id uuid
