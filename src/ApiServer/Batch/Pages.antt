-- ===== src/ApiServer/Batch/Pages.antt =====
-- The pages of a listing, where each asks for what follows the last item of the one before.
use miya_api.Prelude.{
  ℕ, zero, suc, ◌+◌, ◌≤◌, ◌<◌, ◌≡◌, refl, false, String, Option, none, some, List, [], ◌∷◌, ◌++◌,
  All, length, drop, take, leb, min, usize_max, text_ord, ◌=?◌, =?_refl, if◌then◌else◌, get_elem?,
  Bool-cases, inl, inr, arith, ap, sym, subst, ◌-◌,
}
use miya_api.ApiServer.Batch.{page_after, page_start, position}

module _ {T : Type 0} (object_id : T → String) where
  -- No two items have the same id.
  abbrev pub DistinctIds : List T → Type 0
  DistinctIds [] = Unit
  DistinctIds (x ∷ xs) = All (λ y. (object_id x =? object_id y) ≡ false) xs × DistinctIds xs

  -- The id of the last item of a page, which the next request names.
  abbrev pub last_id : List T → Option String
  last_id [] = none
  last_id (x ∷ []) = some (object_id x)
  last_id (x ∷ y ∷ ys) = last_id (y ∷ ys)

  -- Following the pages of `limit` items from the item after `after` on, `fuel` of them at most.
  unfoldable pub pages : ℕ → List T → Option String → ℕ → List T
  pages zero items after limit = []
  pages (suc fuel) items after limit =
      let page = page_after object_id items after limit in
      let rest = pages fuel items (last_id page.0) limit in
      if page.1 then page.0 ++ rest else page.0

  All-get :
      (P : T → Type 0) (i : ℕ) (xs : List T) (x : T) → All P xs → get_elem? xs i ≡ some x → P x
  All-get P i [] x h e = absurd (cc)
  All-get P zero (y ∷ ys) x h e = let same : y ≡ x = cc in subst P same h.0
  All-get P (suc i) (y ∷ ys) x h e = All-get P i ys x h.1 e

  position-get :
      (i : ℕ) (xs : List T) (x : T)
      → DistinctIds xs
      → get_elem? xs i ≡ some x
      → position object_id (object_id x) xs ≡ some i
  unfolding position
  position-get i [] x d e = absurd (cc)
  position-get zero (y ∷ ys) x d e =
      let same : y ≡ x = cc in rw same (rw (=?_refl (object_id x)) refl)
  position-get (suc i) (y ∷ ys) x d e =
      let other = All-get (λ z. (object_id y =? object_id z) ≡ false) i ys x d.0 e in
      rw (other, position-get i ys x d.1 e) refl

  -- The last item of a page of `k + 1` items from `s` on is the item at `s + k`.
  last_id-take :
      (k s i : ℕ) (xs : List T)
      → i ≡ s + k
      → i < length xs
      → (x : T) × (last_id (take (suc k) (drop s xs)) ≡ some (object_id x))
        × (get_elem? xs i ≡ some x)
  last_id-take k s i [] e h = absurd (omega arith)
  last_id-take k (suc s) zero (x ∷ xs) e h = absurd (omega arith)
  last_id-take k (suc s) (suc i) (x ∷ xs) e h = last_id-take k s i xs (omega arith) (omega arith)
  last_id-take zero zero zero (x ∷ xs) e h = (x, refl, refl)
  last_id-take zero zero (suc i) (x ∷ xs) e h = absurd (omega arith)
  last_id-take (suc k) zero zero (x ∷ xs) e h = absurd (omega arith)
  last_id-take (suc k) zero (suc i) (x ∷ []) e h = absurd (omega arith)
  last_id-take (suc k) zero (suc i) (x ∷ y ∷ ys) e h =
      last_id-take k zero i (y ∷ ys) (omega arith) (omega arith)

  page_start_found :
      (after : String) (xs : List T) (i : ℕ)
      → position object_id after xs ≡ some i
      → page_start object_id (some after) xs ≡ i + 1
  unfolding page_start
  page_start_found after xs i h = rw (h, page_start) refl

  page_start-last_id :
      (k s : ℕ) (xs : List T)
      → DistinctIds xs
      → s + k < length xs
      → page_start object_id (last_id (take (suc k) (drop s xs))) xs ≡ s + k + 1
  page_start-last_id k s xs d h =
      let (x, last, at) = last_id-take k s (s + k) xs refl h in
      rw last (page_start_found (object_id x) xs (s + k) (position-get (s + k) xs x d at))

  take-drop : (n : ℕ) (xs : List T) → take n xs ++ drop n xs ≡ xs
  take-drop zero xs = refl
  take-drop (suc n) [] = refl
  take-drop (suc n) (x ∷ xs) = ap (λ ys. x ∷ ys) (take-drop n xs)

  drop-drop : (s n m : ℕ) (xs : List T) → m ≡ s + n → drop m xs ≡ drop n (drop s xs)
  drop-drop zero n m xs e = ap (λ k. drop k xs) (omega arith)
  drop-drop (suc s) n zero xs e = absurd (omega arith)
  drop-drop (suc s) zero (suc m) [] e = refl
  drop-drop (suc s) (suc n) (suc m) [] e = refl
  drop-drop (suc s) n (suc m) (x ∷ xs) e = drop-drop s n m xs (omega arith)

  take_all : (n : ℕ) (xs : List T) → length xs ≤ n → take n xs ≡ xs
  take_all zero [] h = refl
  take_all zero (x ∷ xs) h = absurd (omega arith)
  take_all (suc n) [] h = refl
  take_all (suc n) (x ∷ xs) h = ap (λ ys. x ∷ ys) (take_all n xs (omega arith))

  length-drop : (n : ℕ) (xs : List T) → length (drop n xs) ≡ length xs - n
  length-drop zero xs = omega arith
  length-drop (suc n) [] = omega arith
  length-drop (suc n) (x ∷ xs) = omega (arith, length-drop n xs)

  module _ (k : ℕ) (xs : List T) (d : DistinctIds xs) (small : length xs ≤ usize_max) where
    pages-drop :
        (fuel s : ℕ) (after : Option String)
        → page_start object_id after xs ≡ s
        → length xs < fuel + s
        → pages fuel xs after (suc k) ≡ drop s xs
    unfolding pages page_after
    pages-drop zero s after e h = sym (length_zero _ (omega (arith, length-drop s xs)))
      where
        length_zero : (ys : List T) → length ys ≡ 0 → ys ≡ []
        length_zero [] h = refl
        length_zero (y ∷ ys) h = absurd (omega arith)
    pages-drop (suc fuel) s after e h =
        elim (Bool-cases (leb (min (s + suc k) usize_max + 1) (length xs))) [
          | inl more ↦
              let below : s + k < length xs = ground (arith, more) in
              let start = page_start-last_id k s xs d below in
              rw e (
                rw more (
                  rw
                    (pages-drop fuel (s + k + 1) (last_id (take (suc k) (drop s xs))) start
                      (omega arith))
                    (rw (drop-drop s (suc k) (s + k + 1) xs (omega arith))
                      (take-drop (suc k) (drop s xs)))))
          | inr last ↦
              rw e (rw last (take_all (suc k) (drop s xs) (ground (arith, length-drop s xs, last))))
        ]

    -- Where no two items have the same id, the pages of a positive size that a client follows to
    -- the last one are the items, each once and in their order.
    pub pages-all : pages (length xs + 1) xs none (suc k) ≡ xs
    unfolding page_start
    pages-all = pages-drop (length xs + 1) 0 none refl (omega arith)
