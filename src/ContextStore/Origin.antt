-- ===== src/ContextStore/Origin.antt =====
-- The selected chunks are among those given.
use miya_api.Prelude.{
  ℕ, ◌+◌, ◌≡◌, refl, sym, subst, not, ◌&&◌, ◌||◌, leb, any, ◌==◌, String, List, [], ◌∷◌, All,
  is_empty, Bool-cases, inl, inr, nat_ord, Ordering,
}
use miya_api.BTreeMap
use miya_api.BTreeMap.{insert, values}
use miya_api.ContextStore.{
  ContextAssemblyOptions, StoredContextChunk, Candidate, before, insert_candidate, sort_candidates,
  Selected, select, terms_of, candidates, choose_chunks,
}

module _ (P : StoredContextChunk → Type 0) where
  abbrev OnChunk : Candidate → Type 0
  OnChunk (p, c) = P c

  All-values-insert :
      (r : ℕ) (c : StoredContextChunk) (m : Selected)
      → P c
      → All P (values m)
      → All P (values (insert r c m))
  unfolding insert
  All-values-insert r c [] h hs = (h, tt)
  All-values-insert r c ((j, w) ∷ m) h hs =
      from (All-values-insert r c m h hs.1) (nat_ord.cmp r j) refl
    where
      from :
          All P (values (insert r c m))
          → (x : Ordering) → nat_ord.cmp r j ≡ x
          → All P (values (insert r c ((j, w) ∷ m)))
      from rest Ordering.lt eq =
          let step : insert r c ((j, w) ∷ m) ≡ (r, c) ∷ (j, w) ∷ m = rw (eq, insert) refl in
          subst (λ n. All P (values n)) (sym step) (h, hs)
      from rest Ordering.eq eq =
          let step : insert r c ((j, w) ∷ m) ≡ (r, c) ∷ m = rw (eq, insert) refl in
          subst (λ n. All P (values n)) (sym step) (h, hs.1)
      from rest Ordering.gt eq =
          let step : insert r c ((j, w) ∷ m) ≡ (j, w) ∷ insert r c m = rw (eq, insert) refl in
          subst (λ n. All P (values n)) (sym step) (hs.0, rest)

  All-insert_candidate :
      (x : Candidate) (l : List Candidate)
      → OnChunk x
      → All OnChunk l
      → All OnChunk (insert_candidate x l)
  unfolding insert_candidate
  All-insert_candidate x [] h hs = (h, tt)
  All-insert_candidate x (y ∷ l) h hs = elim (Bool-cases (before x y)) [
    | inl first ↦ rw first (h, hs)
    | inr later ↦ rw later (hs.0, All-insert_candidate x l h hs.1)
  ]

  All-sort_candidates : (l : List Candidate) → All OnChunk l → All OnChunk (sort_candidates l)
  unfolding sort_candidates
  All-sort_candidates [] h = tt
  All-sort_candidates (x ∷ l) h =
      All-insert_candidate x (sort_candidates l) h.0 (All-sort_candidates l h.1)

  All-select :
      (o : ContextAssemblyOptions) (cs : List Candidate) (bytes : ℕ) (selected : Selected)
      → All OnChunk cs
      → All P (values selected)
      → All P (values (select o cs bytes selected))
  unfolding select
  All-select o [] bytes selected h hs = hs
  All-select o ((p, c) ∷ rest) bytes selected h hs =
      elim (Bool-cases (leb o.max_chunks (BTreeMap.len selected))) [
        | inl full ↦ rw full hs
        | inr room ↦
            elim (Bool-cases
              (not (is_empty selected) && leb (o.max_context_bytes + 1) (bytes + c.byte_len))) [
                | inl large ↦ rw (room, large) (All-select o rest bytes selected h.1 hs)
                | inr taken ↦
                    rw (room, taken)
                      (All-select o rest (bytes + c.byte_len) (insert c.revision c selected) h.1
                        (All-values-insert c.revision c selected h.0 hs))
              ]
      ]

  module _ (query_terms : String → List String) (score : StoredContextChunk → List String → ℕ) where
    All-candidates :
        (terms : List String) (recent : List ℕ) (chunks : List StoredContextChunk)
        → All P chunks
        → All OnChunk (candidates query_terms score terms recent chunks)
    unfolding candidates
    All-candidates terms recent [] h = tt
    All-candidates terms recent (chunk ∷ rest) h =
        elim (Bool-cases
          (is_empty terms || leb 1 (score chunk terms) || any (λ r. r == chunk.revision) recent)) [
            | inl taken ↦ rw taken (h.0, All-candidates terms recent rest h.1)
            | inr skipped ↦ rw skipped (All-candidates terms recent rest h.1)
          ]

    -- What holds of all chunks of a context holds of all that are selected: nothing else gets into
    -- the selection.
    pub choose_chunks-All :
        (o : ContextAssemblyOptions) (chunks : List StoredContextChunk)
        → All P chunks
        → All P (choose_chunks query_terms score o chunks)
    unfolding choose_chunks
    choose_chunks-All o chunks h =
        All-select o _ 0 BTreeMap.empty
          (All-sort_candidates _ (All-candidates (terms_of query_terms score o.query) _ chunks h))
          tt
