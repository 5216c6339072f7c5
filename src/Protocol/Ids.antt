-- ===== src/Protocol/Ids.antt =====
-- The identifiers (macro `id_type!`) and the isolation key of crates/agent-protocol/src/lib.rs.
use miya_api.Prelude.{◌≡◌, ◌↔◌, Ordering, String, Ord, text_ord, text_eq, then_cmp, arith}

abbrev pub TenantId : Type 0
TenantId = String

abbrev pub RequestId : Type 0
RequestId = String

abbrev pub ConversationFingerprint : Type 0
ConversationFingerprint = String

abbrev pub TaskId : Type 0
TaskId = String

abbrev pub AgentId : Type 0
AgentId = String

abbrev pub ArtifactId : Type 0
ArtifactId = String

abbrev pub ToolCallId : Type 0
ToolCallId = String

pub record IsolationKey : Type 0 where
  pub tenant_id : TenantId
  pub request_id : RequestId
  pub conversation_fingerprint : ConversationFingerprint

-- The derived order: field by field.
unfoldable pub cmp_key : IsolationKey → IsolationKey → Ordering
cmp_key a b = then_cmp (text_ord.cmp a.tenant_id b.tenant_id) (
    then_cmp (text_ord.cmp a.request_id b.request_id)
      (text_ord.cmp a.conversation_fingerprint b.conversation_fingerprint))

module _ (a b : IsolationKey) where
  tenants : (text_ord.cmp a.tenant_id b.tenant_id ≡ Ordering.eq) ↔ (a.tenant_id ≡ b.tenant_id)
  tenants = text_eq a.tenant_id b.tenant_id

  requests : (text_ord.cmp a.request_id b.request_id ≡ Ordering.eq) ↔ (a.request_id ≡ b.request_id)
  requests = text_eq a.request_id b.request_id

  conversations :
      (text_ord.cmp a.conversation_fingerprint b.conversation_fingerprint ≡ Ordering.eq)
      ↔ (a.conversation_fingerprint ≡ b.conversation_fingerprint)
  conversations = text_eq a.conversation_fingerprint b.conversation_fingerprint

  pub cmp_key_eq : (cmp_key a b ≡ Ordering.eq) ↔ (a ≡ b)
  unfolding cmp_key
  cmp_key_eq = (
    λ h. ground (arith, tenants.0, requests.0, conversations.0),
    λ h. ground (arith, tenants.1, requests.1, conversations.1),
  )

instance abbrev pub key_ord : Ord IsolationKey
key_ord = record { cmp = cmp_key; cmp_eq = cmp_key_eq }
