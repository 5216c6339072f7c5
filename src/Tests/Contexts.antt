-- ===== src/Tests/Contexts.antt =====
-- A context of three chunks.
use Prim.Native.String.{len}
use miya_api.Prelude.{ℕ, ◌≤◌, ◌≡◌, refl, String, List, [], ◌∷◌, map, decimal, trim}
use miya_api.BTreeMap.{insert}
use miya_api.ContextStore.{
  ContextAssemblyOptions, default_options, StoredContextChunk, choose_chunks, render_chunks,
}
use miya_api.ContextStore.Selection.{Fits, choose_chunks-Fits}
use miya_api.ContextStore.Rendering.{render_chunks_bound}

abbrev chunk : ℕ → String → ℕ → StoredContextChunk
chunk revision text size = record {
  tenant_id = "acme";
  context_id = "c";
  revision = revision;
  role = "user";
  text_sha256 = "00";
  byte_len = size;
  text = text;
  created_at_ms = 5;
}

abbrev chunks : List StoredContextChunk
chunks = chunk 1 "one" 3 ∷ chunk 2 "two" 3 ∷ chunk 3 "three" 5 ∷ []

abbrev two_chunks : ContextAssemblyOptions
two_chunks = record default_options { max_chunks = 2; recent_tail_chunks = 1 }

choose_chunks-Fits_example : Fits two_chunks (choose_chunks (λ _. []) (λ _ _. 0) two_chunks chunks)
choose_chunks-Fits_example = choose_chunks-Fits (λ _. []) (λ _ _. 0) two_chunks chunks

render_chunks_bound_example : len (render_chunks chunks 70) ≤ 70
render_chunks_bound_example = render_chunks_bound 70 chunks

-- the latest two, in the order of their revisions
chosen :
    map
      (λ (c : StoredContextChunk). c.revision)
      (choose_chunks (λ _. []) (λ _ _. 0) two_chunks chunks)
    ≡ 2 ∷ 3 ∷ []
unfolding choose_chunks insert
chosen = refl

rendered :
    render_chunks (chunk 1 " one\n" 5 ∷ chunk 2 "two" 3 ∷ []) 80
    ≡ "[context revision=1 role=user]\none\n\n[context revision=2 role=user]\ntwo"
unfolding render_chunks decimal trim
rendered = refl
