-- ===== src/ApiServer/Batch/Input.antt =====
-- The input of a batch of OpenAI requests: one JSON object to a line, as `run_openai_batch` of
-- crates/api-server/src/batch_api.rs reads it.
pub mod Checks
use Prim.Native.Char.{Char, code}
use Prim.Native.String.{◌++◌ as concat}
use miya_api.Prelude.{
  ℕ, suc, ◌+◌, ◌==◌, leb, Bool, true, false, not, ◌&&◌, ◌||◌, String, Option, none, some, List, [],
  ◌∷◌, ◌++◌, any, length, is_empty, Result, ok, err, is_blank, decimal, starts_with, text_ord, ◌=?◌,
  if◌then◌else◌,
}
use miya_api.ApiServer.Batch.{OpenAiBatchInputLine, max_openai_batch_requests}

abbrev pub prepend : Char → List String → List String
prepend c [] = String.◌∷◌ c String.[] ∷ []
prepend c (line ∷ rest) = String.◌∷◌ c line ∷ rest

-- `str::lines`: what stands between line feeds, without a carriage return before the line feed, and
-- no last line if it is empty.
unfoldable pub lines : String → List String
lines String.[] = []
lines (String.◌∷◌ c s) =
    let rest = lines s in
    if code c == b'\n'
    then String.[] ∷ rest
    else (if code c == b'\r' && starts_with s "\n" then rest else prepend c rest)

-- ASCII letters in lower case
abbrev pub ascii_lowercase : ℕ → ℕ
ascii_lowercase c = if leb b'A' c && leb c b'Z' then c + 32 else c

unfoldable pub eq_ignore_ascii_case : String → String → Bool
eq_ignore_ascii_case String.[] String.[] = true
eq_ignore_ascii_case String.[] (String.◌∷◌ d t) = false
eq_ignore_ascii_case (String.◌∷◌ c s) String.[] = false
eq_ignore_ascii_case (String.◌∷◌ c s) (String.◌∷◌ d t) =
    ascii_lowercase (code c) == ascii_lowercase (code d) && eq_ignore_ascii_case s t

-- The error text of a line of the input, with its number.
abbrev pub at_line : String → ℕ → String
at_line message index = concat message (concat " at line " (decimal (index + 1)))

-- The checks of a request, after those with the ids `ids`.
unfoldable pub check_input :
    String → ℕ → OpenAiBatchInputLine → List String → Result String OpenAiBatchInputLine
check_input endpoint index input ids =
    if is_blank input.custom_id || any (λ id. id =? input.custom_id) ids
    then err (at_line "custom_id must be non-empty and unique" index)
    else if not (eq_ignore_ascii_case input.method "POST")
    then err (at_line "batch method must be POST" index)
    else if input.url =? endpoint
    then ok input
    else err (
        at_line
          (concat "batch URL " (concat input.url (concat " does not match endpoint " endpoint)))
          index)

-- `from_str` is `serde_json::from_str` at the type of a line; its error is a text here.
module _ (from_str : String → Result String OpenAiBatchInputLine) (endpoint : String) where
  unfoldable pub read_input : ℕ → String → List String → Result String OpenAiBatchInputLine
  read_input index line ids = elim (from_str line) [
    | err e ↦ err (concat "invalid JSONL at line " (concat (decimal (index + 1)) (concat ": " e)))
    | ok input ↦ check_input endpoint index input ids
  ]

  -- The loop over the lines from number `index` on.
  unfoldable pub read_inputs :
      ℕ
      → List String
      → List OpenAiBatchInputLine
      → List String
      → Result String (List OpenAiBatchInputLine)
  read_inputs index [] inputs ids = ok inputs
  read_inputs index (line ∷ rest) inputs ids =
      let skipped = read_inputs (index + 1) rest inputs ids in
      let read : Result String (List OpenAiBatchInputLine) = elim (read_input index line ids) [
        | err e ↦ err e
        | ok input ↦ read_inputs (index + 1) rest (inputs ++ (input ∷ [])) (input.custom_id ∷ ids)
      ] in
      if is_blank line
      then skipped
      else if leb max_openai_batch_requests (length inputs)
      then err
          (concat "batch input exceeds " (concat (decimal max_openai_batch_requests) " requests"))
      else read

  unfoldable pub batch_inputs : String → Result String (List OpenAiBatchInputLine)
  batch_inputs text = elim (read_inputs 0 (lines text) [] []) [
    | err e ↦ err e
    | ok [] ↦ err "batch input file contains no requests"
    | ok (input ∷ inputs) ↦ ok (input ∷ inputs)
  ]
