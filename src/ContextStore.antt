-- ===== src/ContextStore.antt =====
-- The assembly of a context in crates/context-store/src/lib.rs: which chunks go into the text that a
-- model is given, and how they are written.
pub mod Selection
pub mod Origin
pub mod Rendering
use Prim.Native.String.{◌++◌ as concat, len}
use miya_api.Prelude.{
  ℕ, zero, suc, ◌+◌, ◌-◌, ◌%◌, ◌^◌, ◌==◌, leb, min, Bool, true, false, not, ◌&&◌, ◌||◌, String,
  Option, none, some, List, [], ◌∷◌, map, length, drop, any, is_empty, clamp, saturating_mul,
  u64_max, trim, is_blank, text_is_empty, decimal, nat_ord, if◌then◌else◌,
}
use miya_api.BTreeMap
use miya_api.BTreeMap.{BTreeMap, empty, insert, values}

abbrev pub default_max_context_bytes : ℕ
default_max_context_bytes = 1_048_576

abbrev pub default_max_chunks : ℕ
default_max_chunks = 128

abbrev pub default_recent_tail_chunks : ℕ
default_recent_tail_chunks = 12

pub record ContextAssemblyOptions : Type 0 where
  pub query : Option String
  pub cache_namespace : String
  pub rewind_revision : Option ℕ
  pub max_context_bytes : ℕ
  pub max_chunks : ℕ
  pub recent_tail_chunks : ℕ
  pub cache_enabled : Bool

abbrev pub default_options : ContextAssemblyOptions
default_options = record {
  query = none;
  cache_namespace = "default";
  rewind_revision = none;
  max_context_bytes = default_max_context_bytes;
  max_chunks = default_max_chunks;
  recent_tail_chunks = default_recent_tail_chunks;
  cache_enabled = true;
}

-- `chars().take(n)`
unfoldable pub take_chars : ℕ → String → String
take_chars zero s = String.[]
take_chars (suc n) String.[] = String.[]
take_chars (suc n) (String.◌∷◌ c s) = String.◌∷◌ c (take_chars n s)

unfoldable pub normalize_cache_namespace : String → String
unfolding take_chars
normalize_cache_namespace value = if is_blank value then "default" else take_chars 256 (trim value)

unfoldable pub normalized : ContextAssemblyOptions → ContextAssemblyOptions
unfolding normalize_cache_namespace
normalized o = record o {
  max_context_bytes = clamp o.max_context_bytes 1 default_max_context_bytes;
  max_chunks = clamp o.max_chunks 1 default_max_chunks;
  recent_tail_chunks = min o.recent_tail_chunks (clamp o.max_chunks 1 default_max_chunks);
  cache_namespace = normalize_cache_namespace o.cache_namespace;
}

pub record StoredContextChunk : Type 0 where
  pub tenant_id : String
  pub context_id : String
  pub revision : ℕ
  pub role : String
  pub text_sha256 : String
  pub byte_len : ℕ
  pub text : String
  pub created_at_ms : ℕ

-- A candidate of the selection: its priority and the chunk.
abbrev pub Candidate : Type 0
Candidate = ℕ × StoredContextChunk

-- Greater priorities come first, and greater revisions at the same priority.
abbrev pub before : Candidate → Candidate → Bool
before (p, c) (q, d) = leb (q + 1) p || (p == q && leb d.revision c.revision)

unfoldable pub insert_candidate : Candidate → List Candidate → List Candidate
insert_candidate x [] = x ∷ []
insert_candidate x (y ∷ ys) = if before x y then x ∷ y ∷ ys else y ∷ insert_candidate x ys

-- `sort_by`, which is stable
unfoldable pub sort_candidates : List Candidate → List Candidate
unfolding insert_candidate
sort_candidates [] = []
sort_candidates (x ∷ xs) = insert_candidate x (sort_candidates xs)

abbrev pub Selected : Type 0
Selected = BTreeMap ℕ StoredContextChunk

-- The loop over the candidates, with the bytes of those that were taken.
unfoldable pub select : ContextAssemblyOptions → List Candidate → ℕ → Selected → Selected
select o [] bytes selected = selected
select o ((p, chunk) ∷ rest) bytes selected =
    let skipped = select o rest bytes selected in
    let taken = select o rest (bytes + chunk.byte_len) (insert chunk.revision chunk selected) in
    if leb o.max_chunks (BTreeMap.len selected)
    then selected
    else if not (is_empty selected) && leb (o.max_context_bytes + 1) (bytes + chunk.byte_len)
    then skipped
    else taken

-- `query_terms` and `score` are the search terms of a query and the number of their occurrences in a
-- chunk, which depend on the Unicode tables of letters.
module _ (query_terms : String → List String) (score : StoredContextChunk → List String → ℕ) where
  abbrev pub terms_of : Option String → List String
  terms_of none = []
  terms_of (some query) = query_terms query

  -- `filter_map` with the score of each chunk
  unfoldable pub candidates : List String → List ℕ → List StoredContextChunk → List Candidate
  candidates terms recent [] = []
  candidates terms recent (chunk ∷ rest) =
      let is_recent = any (λ r. r == chunk.revision) recent in
      let priority =
        (saturating_mul u64_max (score chunk terms) 10_000
          + (if is_recent then 5_000 else 0)
          + min chunk.revision 4_999)
        % 2 ^ 64 in
      if is_empty terms || leb 1 (score chunk terms) || is_recent
      then (priority, chunk) ∷ candidates terms recent rest
      else candidates terms recent rest

  unfoldable pub choose_chunks :
      ContextAssemblyOptions → List StoredContextChunk → List StoredContextChunk
  unfolding candidates sort_candidates select
  choose_chunks o chunks =
      let recent =
        map (λ (c : StoredContextChunk). c.revision)
          (drop (length chunks - o.recent_tail_chunks) chunks) in
      values (select o (sort_candidates (candidates (terms_of o.query) recent chunks)) 0 empty)

unfoldable pub part_of : StoredContextChunk → String
part_of chunk = concat "[context revision=" (
    concat (decimal chunk.revision)
      (concat " role=" (concat chunk.role (concat "]\n" (trim chunk.text)))))

-- What is rendered so far with another part, if there is room.
unfoldable pub add_part : ℕ → String → String → String
add_part max_bytes rendered part =
    if text_is_empty rendered
    then (if leb (len part) max_bytes then part else rendered)
    else (if leb (len rendered + len part + 2) max_bytes
        then concat rendered (concat "\n\n" part)
        else rendered)

-- The loop of `render_chunks`, from what is rendered so far.
unfoldable pub render_from : ℕ → String → List StoredContextChunk → String
unfolding part_of add_part
render_from max_bytes rendered [] = rendered
render_from max_bytes rendered (chunk ∷ rest) =
    render_from max_bytes (add_part max_bytes rendered (part_of chunk)) rest

unfoldable pub render_chunks : List StoredContextChunk → ℕ → String
unfolding render_from
render_chunks chunks max_bytes = render_from max_bytes "" chunks
