-- ===== src/ContextStore/Selection.antt =====
-- How many chunks are selected, and with how many bytes.
use miya_api.Prelude.{
  ℕ, ◌+◌, ◌≤◌, ◌<◌, ◌≡◌, refl, true, false, String, List, [], ◌∷◌, ◌⊎◌, inl, inr, length, nat_ord,
  is_empty, not, ◌&&◌, Bool-cases, leb, arith,
}
use miya_api.BTreeMap
use miya_api.BTreeMap.{BTreeMap, insert, values, len-insert-le}
use miya_api.ContextStore.{
  ContextAssemblyOptions, normalized, StoredContextChunk, Candidate, Selected, select,
  choose_chunks, default_max_context_bytes, default_max_chunks,
}

-- The bytes of some chunks.
abbrev pub bytes_of : List StoredContextChunk → ℕ
bytes_of [] = 0
bytes_of (c ∷ cs) = c.byte_len + bytes_of cs

bytes_of-insert :
    (r : ℕ) (c : StoredContextChunk) (m : Selected)
    → bytes_of (values (insert r c m)) ≤ c.byte_len + bytes_of (values m)
unfolding insert
bytes_of-insert r c [] = omega arith
bytes_of-insert r c (e ∷ m) = ground (arith, bytes_of-insert r c m)

-- A selection within the limits, where the first chunk is taken however large it is.
abbrev pub Fits : ContextAssemblyOptions → List StoredContextChunk → Type 0
Fits o chunks =
    (length chunks ≤ o.max_chunks) × ((bytes_of chunks ≤ o.max_context_bytes) ⊎ (length chunks ≤ 1))

length-values : (m : Selected) → length (values m) ≡ BTreeMap.len m
length-values [] = refl
length-values (e ∷ m) = omega (arith, length-values m)

module _ (o : ContextAssemblyOptions) where
  -- What holds of the loop's variables.
  abbrev Loop : ℕ → Selected → Type 0
  Loop bytes selected =
      (BTreeMap.len selected ≤ o.max_chunks)
      × ((bytes_of (values selected) ≤ bytes)
          × ((bytes ≤ o.max_context_bytes) ⊎ (BTreeMap.len selected ≤ 1)))

  take-Loop :
      (c : StoredContextChunk) (bytes : ℕ) (selected : Selected)
      → BTreeMap.len selected < o.max_chunks
      → (bytes + c.byte_len ≤ o.max_context_bytes) ⊎ (is_empty selected ≡ true)
      → Loop bytes selected
      → Loop (bytes + c.byte_len) (insert c.revision c selected)
  take-Loop c bytes selected room (inl fits) h = (
    omega (arith, len-insert-le c.revision c selected),
    (omega (arith, bytes_of-insert c.revision c selected, h.1.0), inl fits),
  )
  take-Loop c bytes [] room (inr first) h = (
    omega (arith, len-insert-le c.revision c []),
    (
      omega (arith, bytes_of-insert c.revision c [], h.1.0),
      inr (omega (arith, len-insert-le c.revision c [])),
    ),
  )
  take-Loop c bytes (e ∷ m) room (inr first) h = absurd (ground arith)

  Loop-Fits : (bytes : ℕ) (selected : Selected) → Loop bytes selected → Fits o (values selected)
  Loop-Fits bytes selected (few, (small, inl fits)) =
      (omega (arith, few, length-values selected), inl (omega (arith, small, fits)))
  Loop-Fits bytes selected (few, (small, inr one)) =
      (omega (arith, few, length-values selected), inr (omega (arith, one, length-values selected)))

  -- A candidate that is not skipped fits, or is the first.
  fits_or_first :
      (size : ℕ) (selected : Selected)
      → (not (is_empty selected) && leb (o.max_context_bytes + 1) size) ≡ false
      → (size ≤ o.max_context_bytes) ⊎ (is_empty selected ≡ true)
  fits_or_first size [] h = inr refl
  fits_or_first size (e ∷ m) h = inl (ground arith)

  select-Fits :
      (cs : List Candidate) (bytes : ℕ) (selected : Selected)
      → Loop bytes selected
      → Fits o (values (select o cs bytes selected))
  unfolding select
  select-Fits [] bytes selected h = Loop-Fits bytes selected h
  select-Fits ((p, c) ∷ rest) bytes selected h =
      elim (Bool-cases (leb o.max_chunks (BTreeMap.len selected))) [
        | inl full ↦ rw full (Loop-Fits bytes selected h)
        | inr room ↦
            elim (Bool-cases
              (not (is_empty selected) && leb (o.max_context_bytes + 1) (bytes + c.byte_len))) [
                | inl large ↦ rw (room, large) (select-Fits rest bytes selected h)
                | inr taken ↦
                    rw (room, taken)
                      (select-Fits rest (bytes + c.byte_len) (insert c.revision c selected) (
                        take-Loop c bytes selected (ground (arith, room))
                          (fits_or_first (bytes + c.byte_len) selected taken) h))
              ]
      ]

module _ (query_terms : String → List String) (score : StoredContextChunk → List String → ℕ) where
  -- The selected chunks are at most as many as allowed, and have at most as many bytes as allowed
  -- unless it is a single chunk: the best one is taken however large it is.
  pub choose_chunks-Fits :
      (o : ContextAssemblyOptions) (chunks : List StoredContextChunk)
      → Fits o (choose_chunks query_terms score o chunks)
  unfolding choose_chunks
  choose_chunks-Fits o chunks =
      select-Fits o _ 0 BTreeMap.empty (omega arith, (omega arith, inl (omega arith)))

-- The options of an assembly after normalization: at least one chunk and one byte, at most the
-- defaults, and no more recent chunks than chunks.
pub normalized_bounds :
    (o : ContextAssemblyOptions)
    → ((1 ≤ (normalized o).max_chunks) × ((normalized o).max_chunks ≤ default_max_chunks))
      × (((1 ≤ (normalized o).max_context_bytes)
            × ((normalized o).max_context_bytes ≤ default_max_context_bytes))
          × ((normalized o).recent_tail_chunks ≤ (normalized o).max_chunks))
unfolding normalized
normalized_bounds o = ((omega arith, omega arith), ((omega arith, omega arith), omega arith))
