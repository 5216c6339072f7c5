-- ===== src/ApiServer/ResponsesStore/Order.antt =====
-- The order of a listing of responses.
use mathlib.Core.List.{Permᴰ}
use mathlib.Core.List.Permᴰ
use miya_api.Prelude.{
  ◌≡◌, ◌≤◌, refl, String, List, [], ◌∷◌, All, ok, text_ord, nat_ord, ◌=?◌, filter, arith,
  Bool-cases, inl, inr, =?_iff,
}
use miya_api.BTreeMap.{BTreeMap, values}
use miya_api.ApiServer.DurableStore.{Codec}
use miya_api.ApiServer.ResponsesStore.{
  StoredOpenAiResponse, KvStore, comes_after, insert_stored, sort_stored, list,
}
use miya_api.ApiServer.ResponsesStore.Tenants.{in_memory}

module _ {Message : Type 0} where
  -- Each response is as new as the next one at least.
  abbrev pub NewestFirst : List (StoredOpenAiResponse Message) → Type 0
  NewestFirst [] = Unit
  NewestFirst (r ∷ []) = Unit
  NewestFirst (r ∷ q ∷ rs) = (q.created_at ≤ r.created_at) × NewestFirst (q ∷ rs)

  insert_stored-NewestFirst :
      (r : StoredOpenAiResponse Message) (rs : List (StoredOpenAiResponse Message))
      → NewestFirst rs
      → NewestFirst (insert_stored r rs)
  unfolding insert_stored
  insert_stored-NewestFirst r [] h = tt
  insert_stored-NewestFirst r (q ∷ []) h = ground arith
  insert_stored-NewestFirst r (q ∷ p ∷ rs) h = ground (arith, insert_stored-NewestFirst r (p ∷ rs))

  sort_stored-NewestFirst :
      (rs : List (StoredOpenAiResponse Message)) → NewestFirst (sort_stored rs)
  unfolding sort_stored
  sort_stored-NewestFirst [] = tt
  sort_stored-NewestFirst (r ∷ rs) =
      insert_stored-NewestFirst r (sort_stored rs) (sort_stored-NewestFirst rs)

  insert_stored-Permᴰ :
      (r : StoredOpenAiResponse Message) (rs : List (StoredOpenAiResponse Message))
      → Permᴰ (insert_stored r rs) (r ∷ rs)
  unfolding insert_stored
  insert_stored-Permᴰ r [] = Permᴰ.refl _
  insert_stored-Permᴰ r (q ∷ rs) = elim (Bool-cases (comes_after r q)) [
    | inl later ↦
        rw later (Permᴰ.trans (Permᴰ.cons refl (insert_stored-Permᴰ r rs)) (Permᴰ.swap refl refl))
    | inr first ↦ rw first (Permᴰ.refl (r ∷ q ∷ rs))
  ]

  sort_stored-Permᴰ : (rs : List (StoredOpenAiResponse Message)) → Permᴰ (sort_stored rs) rs
  unfolding sort_stored
  sort_stored-Permᴰ [] = Permᴰ.nil
  sort_stored-Permᴰ (r ∷ rs) =
      Permᴰ.trans (insert_stored-Permᴰ r (sort_stored rs)) (Permᴰ.cons refl (sort_stored-Permᴰ rs))

  filter-All :
      (t : String) (rs : List (StoredOpenAiResponse Message))
      → All
          (λ (r : StoredOpenAiResponse Message). r.tenant_id ≡ t)
          (filter (λ (r : StoredOpenAiResponse Message). r.tenant_id =? t) rs)
  filter-All t [] = tt
  filter-All t (r ∷ rs) = elim (Bool-cases (r.tenant_id =? t)) [
    | inl own ↦ rw own ((=?_iff r.tenant_id t).0 own, filter-All t rs)
    | inr other ↦ rw other (filter-All t rs)
  ]

  insert_stored-All :
      (t : String) (r : StoredOpenAiResponse Message) (rs : List (StoredOpenAiResponse Message))
      → r.tenant_id ≡ t
      → All (λ (r : StoredOpenAiResponse Message). r.tenant_id ≡ t) rs
      → All (λ (r : StoredOpenAiResponse Message). r.tenant_id ≡ t) (insert_stored r rs)
  unfolding insert_stored
  insert_stored-All t r [] h hs = (h, tt)
  insert_stored-All t r (q ∷ rs) h hs = elim (Bool-cases (comes_after r q)) [
    | inl later ↦ rw later (hs.0, insert_stored-All t r rs h hs.1)
    | inr first ↦ rw first (h, hs)
  ]

  sort_stored-All :
      (t : String) (rs : List (StoredOpenAiResponse Message))
      → All (λ (r : StoredOpenAiResponse Message). r.tenant_id ≡ t) rs
      → All (λ (r : StoredOpenAiResponse Message). r.tenant_id ≡ t) (sort_stored rs)
  unfolding sort_stored
  sort_stored-All t [] h = tt
  sort_stored-All t (r ∷ rs) h = insert_stored-All t r _ h.0 (sort_stored-All t rs h.1)

  -- The responses of a tenant in a memory.
  abbrev pub own :
      String → BTreeMap String (StoredOpenAiResponse Message) → List (StoredOpenAiResponse Message)
  own t m = filter (λ (r : StoredOpenAiResponse Message). r.tenant_id =? t) (values m)

module _ {K Message : Type 0} (store : KvStore K)
    ⦃codec : Codec (StoredOpenAiResponse Message)⦄ where
  -- In memory a listing succeeds: it has the responses of the tenant and no others, each as often
  -- as it is stored, the newest first.
  pub list-in_memory :
      (t : String) (m : BTreeMap String (StoredOpenAiResponse Message))
      → (rs : List (StoredOpenAiResponse Message)) × (list store t (in_memory m) ≡ ok rs)
        × Permᴰ rs (own t m)
        × All (λ (r : StoredOpenAiResponse Message). r.tenant_id ≡ t) rs
        × NewestFirst rs
  unfolding list
  list-in_memory t m = (
    sort_stored (own t m),
    refl,
    sort_stored-Permᴰ (own t m),
    sort_stored-All t (own t m) (filter-All t (values m)),
    sort_stored-NewestFirst (own t m),
  )
