-- ===== src/ApiServer/Batch/Input/Checks.antt =====
-- What holds of the requests that are read from the input of a batch.
use miya_api.Prelude.{
  ℕ, ◌+◌, ◌≤◌, ◌<◌, ◌≡◌, refl, true, false, ◌||◌, String, List, [], ◌∷◌, ◌++◌, All, All-append, any,
  length, length-append, Result, Result-cases, ok, err, OnOk, OnOk-ok, is_blank, text_ord, ◌=?◌,
  =?_iff, =?_refl, Bool-cases, inl, inr, leb, arith, ap, sym,
}
use miya_api.ApiServer.Batch.{OpenAiBatchInputLine, max_openai_batch_requests}
use miya_api.ApiServer.Batch.Input.{
  eq_ignore_ascii_case, lines, check_input, read_input, read_inputs, batch_inputs,
}

abbrev pub Checked : String → OpenAiBatchInputLine → Type 0
Checked endpoint i =
    (is_blank i.custom_id ≡ false)
    × (eq_ignore_ascii_case i.method "POST" ≡ true)
    × (i.url ≡ endpoint)

-- The id is that of none of the requests.
abbrev pub NewId : String → List OpenAiBatchInputLine → Type 0
NewId id = All (λ (i : OpenAiBatchInputLine). (i.custom_id =? id) ≡ false)

abbrev pub DistinctIds : List OpenAiBatchInputLine → Type 0
DistinctIds [] = Unit
DistinctIds (i ∷ is) =
    All (λ (j : OpenAiBatchInputLine). (i.custom_id =? j.custom_id) ≡ false) is × DistinctIds is

DistinctIds-snoc :
    (is : List OpenAiBatchInputLine) (x : OpenAiBatchInputLine)
    → DistinctIds is
    → NewId x.custom_id is
    → DistinctIds (is ++ (x ∷ []))
DistinctIds-snoc [] x d n = (tt, tt)
DistinctIds-snoc (i ∷ is) x d n = (
  All-append (λ (j : OpenAiBatchInputLine). (i.custom_id =? j.custom_id) ≡ false) is (x ∷ []) d.0
      (n.0, tt),
  DistinctIds-snoc is x d.1 n.1,
)

-- The ids are those of the requests.
abbrev Covers : List String → List OpenAiBatchInputLine → Type 0
Covers ids = All (λ (i : OpenAiBatchInputLine). any (λ id. id =? i.custom_id) ids ≡ true)

Covers-cons :
    (new : String) (ids : List String) (is : List OpenAiBatchInputLine)
    → Covers ids is
    → Covers (new ∷ ids) is
Covers-cons new ids [] h = tt
Covers-cons new ids (i ∷ is) h = (ground (arith, h.0), Covers-cons new ids is h.1)

not_seen :
    (id : String) (ids : List String) (is : List OpenAiBatchInputLine)
    → Covers ids is
    → any (λ j. j =? id) ids ≡ false
    → NewId id is
not_seen id ids [] h n = tt
not_seen id ids (i ∷ is) h n = (
  elim (Bool-cases (i.custom_id =? id)) [
    | inl same ↦
        absurd
          (ground (arith, n, ap (λ k. any (λ j. j =? k) ids) ((=?_iff i.custom_id id).0 same), h.0))
    | inr other ↦ other
  ],
  not_seen id ids is h.1 n,
)

-- What a request that passes the checks has.
abbrev Passes : String → List String → OpenAiBatchInputLine → Type 0
Passes endpoint ids i = Checked endpoint i × (any (λ id. id =? i.custom_id) ids ≡ false)

check_input-Passes :
    (endpoint : String) (index : ℕ) (i : OpenAiBatchInputLine) (ids : List String)
    → OnOk (Passes endpoint ids) (check_input endpoint index i ids)
unfolding check_input
check_input-Passes endpoint index i ids =
    elim (Bool-cases (is_blank i.custom_id || any (λ id. id =? i.custom_id) ids)) [
      | inl bad ↦ rw (check_input, bad) tt
      | inr good ↦ elim (Bool-cases (eq_ignore_ascii_case i.method "POST")) [
        | inr bad ↦ rw (check_input, good, bad) tt
        | inl post ↦ elim (Bool-cases (i.url =? endpoint)) [
          | inr bad ↦ rw (check_input, good, post, bad) tt
          | inl same ↦
              rw (check_input, good, post, same)
                (
                  ((ground (arith, good), post, (=?_iff i.url endpoint).0 same)),
                  ground (arith, good),
                )
        ]
      ]
    ]

abbrev pub Accepted : String → List OpenAiBatchInputLine → Type 0
Accepted endpoint is =
    All (Checked endpoint) is × DistinctIds is × (length is ≤ max_openai_batch_requests)

module _ (from_str : String → Result String OpenAiBatchInputLine) (endpoint : String) where
  read_input-Passes :
      (index : ℕ) (line : String) (ids : List String)
      → OnOk (Passes endpoint ids) (read_input from_str endpoint index line ids)
  unfolding read_input
  read_input-Passes index line ids = elim (Result-cases (from_str line)) [
    | inl (i, q) ↦ rw (read_input, q) (check_input-Passes endpoint index i ids)
    | inr (e, q) ↦ rw (read_input, q) tt
  ]

  -- A list of requests that the reader may have.
  abbrev Good : List String → List OpenAiBatchInputLine → Type 0
  Good ids is =
      All (Checked endpoint) is
      × DistinctIds is
      × Covers ids is
      × (length is ≤ max_openai_batch_requests)

  Good-snoc :
      (ids : List String) (is : List OpenAiBatchInputLine) (i : OpenAiBatchInputLine)
      → length is < max_openai_batch_requests
      → Passes endpoint ids i
      → Good ids is
      → Good (i.custom_id ∷ ids) (is ++ (i ∷ []))
  Good-snoc ids is i room passes good = (
    All-append (Checked endpoint) is (i ∷ []) good.0 (passes.0, tt),
    DistinctIds-snoc is i good.1 (not_seen i.custom_id ids is good.2 passes.1),
    All-append
        (λ (j : OpenAiBatchInputLine). any (λ id. id =? j.custom_id) (i.custom_id ∷ ids) ≡ true) is
        (i ∷ []) (Covers-cons i.custom_id ids is good.2) (ground (arith, =?_refl i.custom_id), tt),
    omega (arith, length-append {0} is (i ∷ [])),
  )

  read_inputs-Accepted :
      (index : ℕ) (rest : List String) (is : List OpenAiBatchInputLine) (ids : List String)
      → Good ids is
      → OnOk (Accepted endpoint) (read_inputs from_str endpoint index rest is ids)
  unfolding read_inputs
  read_inputs-Accepted index [] is ids good = (good.0, good.1, good.3)
  read_inputs-Accepted index (line ∷ rest) is ids good = elim (Bool-cases (is_blank line)) [
    | inl blank ↦ rw (read_inputs, blank) (read_inputs-Accepted (index + 1) rest is ids good)
    | inr text ↦ elim (Bool-cases (leb max_openai_batch_requests (length is))) [
      | inl full ↦ rw (read_inputs, text, full) tt
      | inr room ↦ elim (Result-cases (read_input from_str endpoint index line ids)) [
        | inr (e, q) ↦ rw (read_inputs, text, room, q) tt
        | inl (i, q) ↦
            rw (read_inputs, text, room, q)
              (read_inputs-Accepted (index + 1) rest (is ++ (i ∷ [])) (i.custom_id ∷ ids) (
                Good-snoc ids is i (ground (arith, room))
                  (OnOk-ok (Passes endpoint ids) _ q (read_input-Passes index line ids)) good))
      ]
    ]
  ]

  -- The requests of a batch are at least one and at most the limit; each is a POST to the batch's
  -- endpoint with an id that is not blank, and no two have the same id.
  pub batch_inputs-Accepted :
      (text : String) {is : List OpenAiBatchInputLine}
      → batch_inputs from_str endpoint text ≡ ok is
      → (1 ≤ length is) × Accepted endpoint is
  unfolding batch_inputs
  batch_inputs-Accepted text {is} h =
      from (read_inputs from_str endpoint 0 (lines text) [] []) is refl
        (read_inputs-Accepted 0 (lines text) [] [] (tt, tt, tt, omega arith)) h
    where
      from :
          (r : Result String (List OpenAiBatchInputLine)) (js : List OpenAiBatchInputLine)
          → r ≡ read_inputs from_str endpoint 0 (lines text) [] []
          → OnOk (Accepted endpoint) (read_inputs from_str endpoint 0 (lines text) [] [])
          → batch_inputs from_str endpoint text ≡ ok js
          → (1 ≤ length js) × Accepted endpoint js
      from (err e) js p good h = absurd (ground (arith, p, h))
      from (ok []) js p good h = absurd (ground (arith, p, h))
      from (ok (i ∷ is)) js p good h =
          let step : batch_inputs from_str endpoint text ≡ ok (i ∷ is) =
            rw (batch_inputs, ← p) refl in
          let e : js ≡ i ∷ is = cc (h, step) in
          rw e (omega arith, OnOk-ok (Accepted endpoint) _ (sym p) good)
