-- ===== src/ApiServer/DurableStore/Names.antt =====
-- The keys of the store: a valid name has no colon, so a key tells its parts.
use miya_api.Prelude.{
  ℕ, ◌≡◌, Bool, true, inl, inr, Bool-cases, ◌&&◌, test_ext, and_iff, sym, ◌∙◌, String, ok,
  all_chars, no_colon, join_injective, join-append, all_chars_mono, starts_with, starts_with_rest,
  starts_with-append, join, text_ord, ◌=?◌, =?_iff, arith,
}
use text.Mathlib.TextLemmas.{nil-append}
use Prim.Native.String.{◌++◌ as concat}
use miya_api.ApiServer.DurableStore.{validate_component, component_char, memory_key, prefix_of}

component_char-no_colon : (c : ℕ) → component_char c ≡ true → no_colon c ≡ true
component_char-no_colon c h = ground arith

-- A name that passes the check.
abbrev pub IsValid : String → Type 0
IsValid value = all_chars component_char value ≡ true

pub validate_component-IsValid :
    (name value : String) (u : Unit {0}) → validate_component name value ≡ ok u → IsValid value
unfolding validate_component
validate_component-IsValid name value u h = elim (Bool-cases (all_chars component_char value)) [
  | inl valid ↦ valid
  | inr wrong ↦ absurd (ground (arith, h, wrong))
]

pub IsValid-no_colon : (s : String) → IsValid s → all_chars no_colon s ≡ true
IsValid-no_colon s = all_chars_mono component_char no_colon component_char-no_colon s

both : (a b c : Bool) → a ≡ true → b ≡ true → c ≡ true → (a && b && c) ≡ true
both a b c h k l = ground arith

split : (a b c : Bool) → (a && b && c) ≡ true → (a ≡ true) × (b ≡ true) × (c ≡ true)
split a b c h = (ground arith, ground arith, ground arith)

module _ (tenant_hash : String → String)
    (hex : (t : String) → all_chars no_colon (tenant_hash t) ≡ true)
    (distinct : (t t' : String) → tenant_hash t ≡ tenant_hash t' → t ≡ t') where
  pub memory_key_injective :
      (n t i n' t' i' : String)
      → IsValid n
      → IsValid n'
      → memory_key tenant_hash n t i ≡ memory_key tenant_hash n' t' i'
      → (n ≡ n') × (t ≡ t') × (i ≡ i')
  unfolding memory_key
  memory_key_injective n t i n' t' i' v v' e =
      let outer = join_injective n n' _ _ (IsValid-no_colon n v) (IsValid-no_colon n' v') e in
      let inner = join_injective _ _ i i' (hex t) (hex t') outer.1 in
      (outer.0, distinct t t' inner.0, inner.1)

  same_key :
      (n t i n' t' i' : String)
      → n ≡ n'
      → t ≡ t'
      → i ≡ i'
      → memory_key tenant_hash n t i ≡ memory_key tenant_hash n' t' i'
  same_key n t i n' t' i' p q r = cc

  -- The test of two keys is the test of their parts.
  pub memory_key_test :
      (n t i n' t' i' : String)
      → IsValid n
      → IsValid n'
      → (memory_key tenant_hash n t i =? memory_key tenant_hash n' t' i')
        ≡ (n =? n' && t =? t' && i =? i')
  memory_key_test n t i n' t' i' v v' =
      test_ext _ _
        (λ h.
          let same = memory_key_injective n t i n' t' i' v v' ((=?_iff _ _).0 h) in
          both _ _ _ ((=?_iff n n').1 same.0) ((=?_iff t t').1 same.1) ((=?_iff i i').1 same.2))
        (λ h.
          let parts = split _ _ _ h in
          (=?_iff _ _).1 (
            same_key n t i n' t' i' ((=?_iff n n').0 parts.0) ((=?_iff t t').0 parts.1)
              ((=?_iff i i').0 parts.2)))

  key_as_prefix :
      (n t i : String) → memory_key tenant_hash n t i ≡ concat (prefix_of tenant_hash n t) i
  unfolding memory_key prefix_of
  key_as_prefix n t i =
      rw (join-append n (join (tenant_hash t) "") i, join-append (tenant_hash t) "" i, nil-append i)

  found :
      (n t n' t' i : String)
      → IsValid n
      → IsValid n'
      → (rest : String) × (memory_key tenant_hash n' t' i ≡ concat (prefix_of tenant_hash n t) rest)
      → (n =? n' && t =? t') ≡ true
  found n t n' t' i v v' (rest, e) =
      let same = memory_key_injective n' t' i n t rest v' v (e ∙ sym (key_as_prefix n t rest)) in
      (and_iff _ _).1 ((=?_iff n n').1 (sym same.0), (=?_iff t t').1 (sym same.1))

  -- The keys under the prefix of a namespace and a tenant are those of the tenant's objects.
  pub prefix_test :
      (n t n' t' i : String)
      → IsValid n
      → IsValid n'
      → starts_with (memory_key tenant_hash n' t' i) (prefix_of tenant_hash n t)
        ≡ (n =? n' && t =? t')
  prefix_test n t n' t' i v v' =
      test_ext _ _ (λ h. found n t n' t' i v v' (starts_with_rest _ _ h))
        (λ h.
          let parts = (and_iff _ _).0 h in
          rw (← (=?_iff n n').0 parts.0, ← (=?_iff t t').0 parts.1)
            (rw (key_as_prefix n t i) (starts_with-append i (prefix_of tenant_hash n t))))
