-- ===== src/ApiServer/ResponsesStore.antt =====
-- `ResponsesStore` of crates/api-server/src/lib.rs: the stored responses of each tenant, in memory
-- and, where one is configured, in the key-value store of the context store.
pub mod Tenants
pub mod Order
use miya_api.Prelude.{
  ℕ, Bool, true, false, ◌||◌, String, Option, none, some, is_some, List, [], ◌∷◌, map, filter,
  Ordering, Result, ok, err, Method, text_ord, nat_ord, ◌=?◌, then_cmp, join, if◌then◌else◌,
}
use miya_api.BTreeMap.{BTreeMap, empty, get, insert, remove, values}
use miya_api.Protocol.Json.{Value}
use miya_api.ApiServer.DurableStore.{Codec, decoded, collect}

-- The messages of the conversation, of type `OpenAiMessage`, are kept as they are.
pub record StoredOpenAiResponse (Message : Type 0) : Type 0 where
  pub tenant_id : String
  pub id : String
  pub created_at : ℕ
  pub response : Value
  pub conversation_messages : List Message
  pub input_items : List Value

unfoldable pub response_store_memory_key : String → String → String
response_store_memory_key tenant_id response_id = join tenant_id response_id

-- The methods of `SurrealKvContextStore` on JSON values, with their errors as texts.
pub record KvStore (K : Type 0) : Type 0 where
  pub put_value : String → String → String → Value → Method K String (Unit {0})
  pub get_value : String → String → String → K → Result String (Option Value)
  pub list_values : String → String → K → Result String (List Value)
  pub delete_value : String → String → String → Method K String Bool

abbrev pub responses_store_namespace : String
responses_store_namespace = "openai_responses"

module _ {Message : Type 0} where
  -- `sort_by`: the newest first, and the greater id first at the same time.
  abbrev pub cmp_stored : StoredOpenAiResponse Message → StoredOpenAiResponse Message → Ordering
  cmp_stored a b = then_cmp (nat_ord.cmp b.created_at a.created_at) (text_ord.cmp b.id a.id)

  abbrev pub comes_after : StoredOpenAiResponse Message → StoredOpenAiResponse Message → Bool
  comes_after r q = elim (cmp_stored r q) [ Ordering.gt ↦ true | _ ↦ false ]

  unfoldable pub insert_stored :
      StoredOpenAiResponse Message
      → List (StoredOpenAiResponse Message)
      → List (StoredOpenAiResponse Message)
  insert_stored r [] = r ∷ []
  insert_stored r (q ∷ qs) = if comes_after r q then q ∷ insert_stored r qs else r ∷ q ∷ qs

  unfoldable pub sort_stored :
      List (StoredOpenAiResponse Message) → List (StoredOpenAiResponse Message)
  sort_stored [] = []
  sort_stored (r ∷ rs) = insert_stored r (sort_stored rs)

pub record ResponsesStore (K Message : Type 0) : Type 0 where
  pub kv : Option K
  pub entries : BTreeMap String (StoredOpenAiResponse Message)

module _ {K Message : Type 0} where
  -- `ResponsesStore::new`
  abbrev pub new : Option K → ResponsesStore K Message
  new kv = record { kv = kv; entries = empty }

  -- the part of `put` after the key-value store has the response
  unfoldable pub remember :
      StoredOpenAiResponse Message → ResponsesStore K Message → ResponsesStore K Message
  remember r s = record s {
    entries = insert (response_store_memory_key r.tenant_id r.id) r s.entries;
  }

  -- the part of `delete` in memory
  unfoldable pub forget : String → String → Bool → Method (ResponsesStore K Message) String Bool
  forget tenant_id response_id deleted s =
      let key = response_store_memory_key tenant_id response_id in
      (ok (deleted || is_some (get key s.entries)), record s { entries = remove key s.entries })

module _ {K Message : Type 0} (store : KvStore K)
    ⦃codec : Codec (StoredOpenAiResponse Message)⦄ where
  open codec use {to_value, from_value}

  -- the part of `put` in the key-value store
  unfoldable pub put_kv : StoredOpenAiResponse Message → Method (Option K) String (Unit {0})
  put_kv r none = (ok tt, none)
  put_kv r (some k) = elim (to_value r) [
    | err e ↦ (err e, some k)
    | ok v ↦
        let written = store.put_value responses_store_namespace r.tenant_id r.id v k in
        (written.0, some written.1)
  ]

  unfoldable pub put :
      StoredOpenAiResponse Message → Method (ResponsesStore K Message) String (Unit {0})
  unfolding remember put_kv
  put r s =
      let written = put_kv r s.kv in
      elim written.0 [
        | ok u ↦ (ok u, remember r (record s { kv = written.1 }))
        | err e ↦ (err e, record s { kv = written.1 })
      ]

  -- what the key-value store has
  unfoldable pub get_kv :
      String → String → Option K → Result String (Option (StoredOpenAiResponse Message))
  get_kv tenant_id response_id none = ok none
  get_kv tenant_id response_id (some k) =
      elim (store.get_value responses_store_namespace tenant_id response_id k) [
        | ok found ↦ decoded found
        | err e ↦ err e
      ]

  unfoldable pub get_response :
      String
      → String
      → ResponsesStore K Message
      → Result String (Option (StoredOpenAiResponse Message))
  unfolding get_kv
  get_response tenant_id response_id s = elim (get_kv tenant_id response_id s.kv) [
    | ok (some r) ↦ ok (some r)
    | ok none ↦ ok (get (response_store_memory_key tenant_id response_id) s.entries)
    | err e ↦ err e
  ]

  -- what `list` sorts
  unfoldable pub responses_of :
      String → ResponsesStore K Message → Result String (List (StoredOpenAiResponse Message))
  unfolding collect
  responses_of tenant_id s = elim s.kv [
    | none ↦
        ok (
          filter (λ (r : StoredOpenAiResponse Message). r.tenant_id =? tenant_id)
            (values s.entries))
    | some k ↦ elim (store.list_values responses_store_namespace tenant_id k) [
      | ok vs ↦ collect (map from_value vs)
      | err e ↦ err e
    ]
  ]

  unfoldable pub list :
      String → ResponsesStore K Message → Result String (List (StoredOpenAiResponse Message))
  unfolding responses_of sort_stored
  list tenant_id s = elim (responses_of tenant_id s) [ ok rs ↦ ok (sort_stored rs) | err e ↦ err e ]

  unfoldable pub delete : String → String → Method (ResponsesStore K Message) String Bool
  unfolding forget
  delete tenant_id response_id s = elim s.kv [
    | none ↦ forget tenant_id response_id false s
    | some k ↦
        let (result, k') = store.delete_value responses_store_namespace tenant_id response_id k in
        elim result [
          | ok deleted ↦ forget tenant_id response_id deleted (record s { kv = some k' })
          | err e ↦ (err e, record s { kv = some k' })
        ]
  ]
