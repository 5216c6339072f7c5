-- ===== src/ApiServer/ResponsesStore/Tenants.antt =====
-- Reading and writing the responses of different tenants, in a store in memory.
use text.Mathlib.TextLemmas.{append_assoc}
use Prim.Native.String.{◌++◌ as concat}
use miya_api.Prelude.{
  ◌≡◌, refl, true, ◌&&◌, String, none, some, ok, text_ord, ◌=?◌, =?_iff, join, join_injective,
  test_ext, and_iff, all_chars, no_colon, if◌then◌else◌, arith, sym, ◌∙◌, ap,
}
use miya_api.BTreeMap.{BTreeMap, get-insert}
use miya_api.ApiServer.DurableStore.{Codec}
use miya_api.ApiServer.ResponsesStore.{
  StoredOpenAiResponse, ResponsesStore, KvStore, response_store_memory_key, put, get_response,
}

-- A store without a key-value store.
abbrev pub in_memory :
    {K Message : Type 0} → BTreeMap String (StoredOpenAiResponse Message) → ResponsesStore K Message
in_memory m = record { kv = none; entries = m }

key_test :
    (t i t' i' : String)
    → all_chars no_colon t ≡ true
    → all_chars no_colon t' ≡ true
    → (response_store_memory_key t i =? response_store_memory_key t' i') ≡ (t =? t' && i =? i')
unfolding response_store_memory_key
key_test t i t' i' h h' =
    test_ext _ _
      (λ e.
        let same = join_injective t t' i i' h h' ((=?_iff _ _).0 e) in
        (and_iff _ _).1 ((=?_iff t t').1 same.0, (=?_iff i i').1 same.1))
      (λ e.
        let parts = (and_iff _ _).0 e in
        (=?_iff _ _).1 (equal ((=?_iff t t').0 parts.0) ((=?_iff i i').0 parts.1)))
  where
    equal : t ≡ t' → i ≡ i' → join t i ≡ join t' i'
    equal p q = cc

join_assoc : (a b i : String) → join a (join b i) ≡ join (join a b) i
unfolding join
join_assoc a b i =
    rw (append_assoc a (concat ":" b) (concat ":" i), append_assoc ":" b (concat ":" i)) refl

module _ {K Message : Type 0} (store : KvStore K) ⦃codec : Codec (StoredOpenAiResponse Message)⦄
    (r : StoredOpenAiResponse Message) (m : BTreeMap String (StoredOpenAiResponse Message)) where
  get_response-put_key :
      (t i : String)
      → get_response store t i (put store r (in_memory m)).1 ≡ (
          if response_store_memory_key r.tenant_id r.id =? response_store_memory_key t i
          then ok (some r)
          else get_response store t i (in_memory m))
  unfolding get_response put
  get_response-put_key t i = ground (
    arith,
    get-insert (response_store_memory_key r.tenant_id r.id) (response_store_memory_key t i) r m,
  )

  -- In memory, where no tenant's name has a colon, a response is read back by its tenant and its
  -- id, and nothing else that a tenant reads changes.
  pub get_response-put :
      (t i : String)
      → all_chars no_colon r.tenant_id ≡ true
      → all_chars no_colon t ≡ true
      → get_response store t i (put store r (in_memory m)).1 ≡ (
          if r.tenant_id =? t && r.id =? i
          then ok (some r)
          else get_response store t i (in_memory m))
  get_response-put t i h h' =
      get_response-put_key t i ∙ rw (key_test r.tenant_id r.id t i h h') refl

  -- In memory, a response of the tenant `a:b` is read by the tenant `a` under the id that begins
  -- with `b:`.
  pub get_response-put_colon :
      (a b : String)
      → r.tenant_id ≡ join a b
      → get_response store a (join b r.id) (put store r (in_memory m)).1 ≡ ok (some r)
  unfolding response_store_memory_key
  get_response-put_colon a b h =
      get_response-put_key a (join b r.id)
      ∙ rw
          ((=?_iff (join r.tenant_id r.id) (join a (join b r.id))).1
            (ap (λ t. join t r.id) h ∙ sym (join_assoc a b r.id)))
          refl
