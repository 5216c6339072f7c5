-- ===== src/ApiServer/DurableStore/Listing.antt =====
-- What a listing of one tenant's objects depends on.
use miya_api.Prelude.{
  ◌≡◌, refl, true, false, ◌&&◌, String, List, [], ◌∷◌, Result-cases, ok, err, inl, inr, All,
  all_chars, no_colon, text_ord, ◌=?◌, Bool-cases, starts_with, ap, sym, ◌∙◌, map,
}
use miya_api.BTreeMap.{values, insert, remove, filter-insert, filter-remove}
use miya_api.Protocol.Json.{Value}
use miya_api.ApiServer.DurableStore.{
  Memory, Codec, validate_component, memory_key, put_json, delete_json, list_json, under, prefix_of,
  collect,
}
use miya_api.ApiServer.DurableStore.Names.{IsValid, validate_component-IsValid, prefix_test}
use miya_api.ApiServer.DurableStore.Objects.{
  Command, put, delete, run, run_all, accepts, accepts-valid, validated_ok, validated_refused,
}

-- The command is about another namespace or another tenant.
abbrev pub Other : {T : Type 0} → String → String → Command T → Type 0
Other n t (put n' t' i x) = (n =? n' && t =? t') ≡ false
Other n t (delete n' t' i) = (n =? n' && t =? t') ≡ false

module _ (tenant_hash : String → String)
    (hex : (t : String) → all_chars no_colon (tenant_hash t) ≡ true)
    (distinct : (t t' : String) → tenant_hash t ≡ tenant_hash t' → t ≡ t') (n t : String)
    (v : IsValid n) where
  unseen_insert :
      (n' t' i : String) (w : Value) (s : Memory)
      → IsValid n'
      → (n =? n' && t =? t') ≡ false
      → under
          (prefix_of tenant_hash n t)
          (record s { objects = insert (memory_key tenant_hash n' t' i) w s.objects })
        ≡ under (prefix_of tenant_hash n t) s
  unfolding under
  unseen_insert n' t' i w s v' other = ap values (
      filter-insert (λ k. starts_with k (prefix_of tenant_hash n t))
        (memory_key tenant_hash n' t' i) w s.objects
        (prefix_test tenant_hash hex distinct n t n' t' i v v' ∙ other))

  unseen_remove :
      (n' t' i : String) (s : Memory)
      → IsValid n'
      → (n =? n' && t =? t') ≡ false
      → under
          (prefix_of tenant_hash n t)
          (record s { objects = remove (memory_key tenant_hash n' t' i) s.objects })
        ≡ under (prefix_of tenant_hash n t) s
  unfolding under
  unseen_remove n' t' i s v' other = ap values (
      filter-remove (λ k. starts_with k (prefix_of tenant_hash n t))
        (memory_key tenant_hash n' t' i) s.objects
        (prefix_test tenant_hash hex distinct n t n' t' i v v' ∙ other))

  delete_other :
      (n' t' i : String) (s : Memory)
      → (n =? n' && t =? t') ≡ false
      → under (prefix_of tenant_hash n t) (delete_json tenant_hash n' t' i s).1
        ≡ under (prefix_of tenant_hash n t) s
  unfolding delete_json
  delete_other n' t' i s other = elim (Bool-cases (accepts n' i)) [
    | inr bad ↦ ap (under (prefix_of tenant_hash n t)) (validated_refused n' i _ s bad)
    | inl good ↦
        let (u, u', q, q') = accepts-valid n' i good in
        rw (validated_ok n' i _ s u u' q q')
          (unseen_remove n' t' i s (validate_component-IsValid "namespace" n' u q) other)
  ]

module _ {T : Type 0} ⦃codec : Codec T⦄ (tenant_hash : String → String)
    (hex : (t : String) → all_chars no_colon (tenant_hash t) ≡ true)
    (distinct : (t t' : String) → tenant_hash t ≡ tenant_hash t' → t ≡ t') where
  open codec use {to_value, from_value}

  module _ (n t : String) (v : IsValid n) where
    put_other :
        (n' t' i : String) (x : T) (s : Memory)
        → (n =? n' && t =? t') ≡ false
        → under (prefix_of tenant_hash n t) (put_json tenant_hash n' t' i x s).1
          ≡ under (prefix_of tenant_hash n t) s
    unfolding put_json
    put_other n' t' i x s other = elim (Bool-cases (accepts n' i)) [
      | inr bad ↦ ap (under (prefix_of tenant_hash n t)) (validated_refused n' i _ s bad)
      | inl good ↦
          let (u, u', q, q') = accepts-valid n' i good in
          rw (validated_ok n' i _ s u u' q q') (elim (Result-cases (to_value x)) [
            | inr (e, r) ↦ rw r refl
            | inl (w, r) ↦ rw r (
                unseen_insert tenant_hash hex distinct n t v n' t' i w s
                  (validate_component-IsValid "namespace" n' u q) other)
          ])
    ]

    run-Other :
        (c : Command T) (s : Memory)
        → Other n t c
        → under (prefix_of tenant_hash n t) (run tenant_hash c s)
          ≡ under (prefix_of tenant_hash n t) s
    unfolding run
    run-Other (put n' t' i x) s other = put_other n' t' i x s other
    run-Other (delete n' t' i) s other = delete_other tenant_hash hex distinct n t v n' t' i s other

    run_all-Other :
        (cs : List (Command T)) (s : Memory)
        → All (Other n t) cs
        → under (prefix_of tenant_hash n t) (run_all tenant_hash cs s)
          ≡ under (prefix_of tenant_hash n t) s
    unfolding run_all
    run_all-Other [] s h = refl
    run_all-Other (c ∷ cs) s h = run_all-Other cs (run tenant_hash c s) h.1 ∙ run-Other c s h.0

  module _ (n t : String) (s : Memory) where
    list_json_valid :
        (u : Unit {0})
        → validate_component "namespace" n ≡ ok u
        → (list_json tenant_hash {T = T} n t s).0
          ≡ collect (map from_value (under (prefix_of tenant_hash n t) s))
    unfolding list_json
    list_json_valid u q = rw (q, list_json) refl

    list_json_invalid :
        (e : String)
        → validate_component "namespace" n ≡ err e
        → (list_json tenant_hash {T = T} n t s).0 ≡ err e
    unfolding list_json
    list_json_invalid e q = rw (q, list_json) refl

  -- Writes and deletions in other namespaces or of other tenants do not change the listing of a
  -- tenant's objects. The digests of tenants are distinct and have no colon.
  pub list_json-run_all-Other :
      (n t : String) (cs : List (Command T)) (s : Memory)
      → All (Other n t) cs
      → (list_json tenant_hash {T = T} n t (run_all tenant_hash cs s)).0
        ≡ (list_json tenant_hash {T = T} n t s).0
  list_json-run_all-Other n t cs s h = elim (Result-cases (validate_component "namespace" n)) [
    | inr (e, q) ↦
        list_json_invalid n t (run_all tenant_hash cs s) e q ∙ sym (list_json_invalid n t s e q)
    | inl (u, q) ↦
        list_json_valid n t (run_all tenant_hash cs s) u q
        ∙ (ap (λ vs. collect (map from_value vs))
              (run_all-Other n t (validate_component-IsValid "namespace" n u q) cs s h)
            ∙ sym (list_json_valid n t s u q))
  ]
