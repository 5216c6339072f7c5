-- ===== src/ContextStore/Rendering.antt =====
-- What the rendered text is bounded by.
use Prim.Native.String.{◌++◌ as concat, len}
use text.Mathlib.TextPositions.{len-append}
use miya_api.Prelude.{
  ℕ, ◌+◌, ◌≤◌, leb, String, List, [], ◌∷◌, Bool-cases, inl, inr, text_is_empty, arith,
}
use miya_api.ContextStore.{StoredContextChunk, part_of, add_part, render_from, render_chunks}

module _ (max_bytes : ℕ) where
  add_part_bound :
      (rendered part : String)
      → len rendered ≤ max_bytes
      → len (add_part max_bytes rendered part) ≤ max_bytes
  unfolding add_part
  add_part_bound rendered part h = elim (Bool-cases (text_is_empty rendered)) [
    | inl first ↦ elim (Bool-cases (leb (len part) max_bytes)) [
      | inl fits ↦ rw (first, fits) (ground (arith, fits))
      | inr large ↦ rw (first, large) h
    ]
    | inr later ↦ elim (Bool-cases (leb (len rendered + len part + 2) max_bytes)) [
      | inl fits ↦
          rw (later, fits, len-append rendered (concat "\n\n" part), len-append "\n\n" part)
            (ground (arith, fits))
      | inr large ↦ rw (later, large) h
    ]
  ]

  render_from_bound :
      (rendered : String) (chunks : List StoredContextChunk)
      → len rendered ≤ max_bytes
      → len (render_from max_bytes rendered chunks) ≤ max_bytes
  unfolding render_from
  render_from_bound rendered [] h = h
  render_from_bound rendered (chunk ∷ rest) h =
      render_from_bound (add_part max_bytes rendered (part_of chunk)) rest
        (add_part_bound rendered (part_of chunk) h)

  -- The rendered text never has more bytes than allowed.
  pub render_chunks_bound :
      (chunks : List StoredContextChunk) → len (render_chunks chunks max_bytes) ≤ max_bytes
  unfolding render_chunks
  render_chunks_bound chunks = render_from_bound "" chunks (omega arith)
