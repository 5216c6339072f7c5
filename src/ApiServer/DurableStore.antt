-- ===== src/ApiServer/DurableStore.antt =====
-- crates/api-server/src/durable.rs: the store of objects and blobs of each tenant, with the backend
-- in memory.
pub mod Names
pub mod Objects
pub mod Listing
pub mod Blobs
use Prim.Native.String.{◌++◌ as concat, len}
use miya_api.Prelude.{
  ℕ, ◌≡◌, Bool, not, ◌&&◌, ◌||◌, leb, ◌==◌, String, Option, none, some, is_some, List, [], ◌∷◌, map,
  filter, Result, ok, err, Method, fail, text_ord, text_is_empty, all_chars, starts_with, join,
  if◌then◌else◌, is_ascii_alphanumeric,
}
use miya_api.BTreeMap.{BTreeMap, empty, get, insert, remove, values}
use miya_api.Protocol.Json.{Value}

-- `Backend::Memory`
pub record Memory : Type 0 where
  pub objects : BTreeMap String Value
  pub blobs : BTreeMap String (List ℕ)

-- `DurableStore::memory`
abbrev pub memory : Memory
memory = record { objects = empty; blobs = empty }

abbrev pub component_char : ℕ → Bool
component_char c = is_ascii_alphanumeric c || c == b'-' || c == b'_'

unfoldable pub validate_component : String → String → Result String (Unit {0})
validate_component name value =
    if text_is_empty value || leb 161 (len value) || not (all_chars component_char value)
    then err (concat "invalid durable " name)
    else ok tt

-- A call whose names are checked first.
unfoldable pub validated :
    {A : Type 0} → String → String → Method Memory String A → Method Memory String A
validated namespace id method s = elim (validate_component "namespace" namespace) [
  | err e ↦ (err e, s)
  | ok u ↦ elim (validate_component "id" id) [ err e ↦ (err e, s) | ok u ↦ method s ]
]

-- `serde_json::to_value` and `serde_json::from_value` at a type that derives `Serialize` and
-- `Deserialize`: what is written is read back.
pub record Codec (T : Type 0) : Type 0 where
  pub to_value : T → Result String Value
  pub from_value : Value → Result String T
  pub from_value-to_value : (x : T) (v : Value) → to_value x ≡ ok v → from_value v ≡ ok x

-- `collect::<Result<Vec<_>, _>>()`
unfoldable pub collect : {T : Type 0} → List (Result String T) → Result String (List T)
collect [] = ok []
collect (ok x ∷ rest) = elim (collect rest) [ ok xs ↦ ok (x ∷ xs) | err e ↦ err e ]
collect (err e ∷ rest) = err e

-- `value.map(from_value).transpose()`
abbrev pub decoded : {T : Type 0} ⦃codec : Codec T⦄ → Option Value → Result String (Option T)
decoded none = ok none
decoded ⦃codec⦄ (some v) = elim (codec.from_value v) [ ok x ↦ ok (some x) | err e ↦ err e ]

-- The selection of a listing, by the prefix of the keys.
unfoldable pub under : String → Memory → List Value
under prefix s = values (filter (λ (e : String × Value). starts_with e.0 prefix) s.objects)

-- `tenant_hash` is a digest of the crate sha2, in hexadecimal.
module _ (tenant_hash : String → String) where
  unfoldable pub memory_key : String → String → String → String
  memory_key namespace tenant_id id = join namespace (join (tenant_hash tenant_id) id)

  -- `format!("{namespace}:{}:", tenant_hash(tenant_id))`
  unfoldable pub prefix_of : String → String → String
  prefix_of namespace tenant_id = join namespace (join (tenant_hash tenant_id) "")

  module _ {T : Type 0} ⦃codec : Codec T⦄ where
    open codec use {to_value, from_value}

    unfoldable pub put_json : String → String → String → T → Method Memory String (Unit {0})
    put_json namespace tenant_id id value = validated namespace id λ s. elim (to_value value) [
      | err e ↦ (err e, s)
      | ok v ↦
          (ok tt, record s { objects = insert (memory_key namespace tenant_id id) v s.objects })
    ]

    unfoldable pub get_json : String → String → String → Method Memory String (Option T)
    get_json namespace tenant_id id =
        validated namespace id λ s. (decoded (get (memory_key namespace tenant_id id) s.objects), s)

    unfoldable pub list_json : String → String → Method Memory String (List T)
    unfolding under collect
    list_json namespace tenant_id s = elim (validate_component "namespace" namespace) [
      | err e ↦ (err e, s)
      | ok u ↦ (collect (map from_value (under (prefix_of namespace tenant_id) s)), s)
    ]

    unfoldable pub list_all_json : String → Method Memory String (List T)
    unfolding under collect
    list_all_json namespace s = elim (validate_component "namespace" namespace) [
      | err e ↦ (err e, s)
      | ok u ↦ (collect (map from_value (under (join namespace "") s)), s)
    ]

  unfoldable pub delete_json : String → String → String → Method Memory String Bool
  delete_json namespace tenant_id id = validated namespace id λ s.
      let key = memory_key namespace tenant_id id in
      (ok (is_some (get key s.objects)), record s { objects = remove key s.objects })

  unfoldable pub put_blob : String → String → String → List ℕ → Method Memory String (Unit {0})
  put_blob namespace tenant_id id bytes =
      validated namespace id
        λ s. (ok tt, record s { blobs = insert (memory_key namespace tenant_id id) bytes s.blobs })

  unfoldable pub get_blob : String → String → String → Method Memory String (Option (List ℕ))
  get_blob namespace tenant_id id =
      validated namespace id λ s. (ok (get (memory_key namespace tenant_id id) s.blobs), s)

  unfoldable pub delete_blob : String → String → String → Method Memory String Bool
  delete_blob namespace tenant_id id = validated namespace id λ s.
      let key = memory_key namespace tenant_id id in
      (ok (is_some (get key s.blobs)), record s { blobs = remove key s.blobs })
