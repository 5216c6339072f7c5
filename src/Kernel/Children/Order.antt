-- ===== src/Kernel/Children/Order.antt =====
-- Sorting by index forgets in which order the results came.
use mathlib.Core.List.{Permᴰ}
use mathlib.Core.List.Permᴰ
use miya_api.Prelude.{
  ◌==◌, ◌≡◌, refl, sym, ap, subst, ◌∙◌, false, List, [], ◌∷◌, All, Result, ok, err, arith,
}
use miya_api.Kernel.Children.{
  ChildResult, index_of, insert_by_index, sort_by_index, collect_results,
}

-- Results with different indices.
abbrev pub Apart : ChildResult → ChildResult → Type 0
Apart x y = (index_of x == index_of y) ≡ false

abbrev pub DistinctIndices : List ChildResult → Type 0
DistinctIndices [] = Unit
DistinctIndices (x ∷ xs) = All (Apart x) xs × DistinctIndices xs

insert_by_index_comm :
    (x y : ChildResult) (l : List ChildResult)
    → Apart x y
    → insert_by_index x (insert_by_index y l) ≡ insert_by_index y (insert_by_index x l)
unfolding insert_by_index
insert_by_index_comm x y [] apart = ground arith
insert_by_index_comm x y (z ∷ l) apart = ground (arith, insert_by_index_comm x y l apart)

Apart-sym : (x y : ChildResult) → Apart x y → Apart y x
Apart-sym x y h = ground arith

module _ {ℓ κ} {A : Type ℓ} (P : A → Type κ) where
  All-Permᴰ : {xs ys : List A} → Permᴰ xs ys → All P xs → All P ys
  All-Permᴰ Permᴰ.nil h = h
  All-Permᴰ (Permᴰ.cons e p) h = (subst P e h.0, All-Permᴰ p h.1)
  All-Permᴰ (Permᴰ.swap e f) h = (subst P f h.1.0, (subst P e h.0, h.1.1))
  All-Permᴰ (Permᴰ.trans p q) h = All-Permᴰ q (All-Permᴰ p h)

DistinctIndices-Permᴰ :
    {xs ys : List ChildResult} → Permᴰ xs ys → DistinctIndices xs → DistinctIndices ys
DistinctIndices-Permᴰ Permᴰ.nil h = h
DistinctIndices-Permᴰ (Permᴰ.cons {a} {l₂ = l₂} e p) h =
    (subst (λ x. All (Apart x) l₂) e (All-Permᴰ (Apart a) p h.0), DistinctIndices-Permᴰ p h.1)
DistinctIndices-Permᴰ (Permᴰ.swap {a} {b} {a'} {b'} {l} e f) h = (
  (
    subst (λ x. Apart x b') f (subst (Apart b) e (Apart-sym a b h.0.0)),
    subst (λ x. All (Apart x) l) f h.1.0,
  ),
  (subst (λ x. All (Apart x) l) e h.0.1, h.1.1),
)
DistinctIndices-Permᴰ (Permᴰ.trans p q) h = DistinctIndices-Permᴰ q (DistinctIndices-Permᴰ p h)

-- Two orders of the same results with different indices are sorted alike.
pub sort_by_index-Permᴰ :
    {xs ys : List ChildResult}
    → Permᴰ xs ys
    → DistinctIndices xs
    → sort_by_index xs ≡ sort_by_index ys
unfolding sort_by_index
sort_by_index-Permᴰ Permᴰ.nil h = refl
sort_by_index-Permᴰ (Permᴰ.cons {a} {l₂ = l₂} e p) h =
    ap (insert_by_index a) (sort_by_index-Permᴰ p h.1)
    ∙ ap (λ x. insert_by_index x (sort_by_index l₂)) e
sort_by_index-Permᴰ (Permᴰ.swap {a} {b} {a'} {b'} {l} e f) h =
    insert_by_index_comm a b (sort_by_index l) h.0.0
    ∙ (ap (λ x. insert_by_index x (insert_by_index a (sort_by_index l))) f
        ∙ ap (λ x. insert_by_index a' (insert_by_index x (sort_by_index l))) e)
sort_by_index-Permᴰ (Permᴰ.trans p q) h =
    sort_by_index-Permᴰ p h ∙ sort_by_index-Permᴰ q (DistinctIndices-Permᴰ p h)

module _ {E A : Type 0} where
  -- The first result of a list without errors, and the values of the rest.
  abbrev pub Split : Result E A → List (Result E A) → List A → Type 0
  Split x xs values =
      (v : A) × (rest : List A) × (x ≡ ok v) × (collect_results xs ≡ ok rest) × (values ≡ v ∷ rest)

  pub collect_results-Split :
      (x : Result E A) (xs : List (Result E A)) (values : List A)
      → collect_results (x ∷ xs) ≡ ok values
      → Split x xs values
  unfolding collect_results
  collect_results-Split (err e) xs values h = absurd (ground arith)
  collect_results-Split (ok v) xs values h = from (collect_results xs) refl
    where
      from : (r : Result E (List A)) → collect_results xs ≡ r → Split (ok v) xs values
      from (ok rest) eq =
          let whole : collect_results (ok v ∷ xs) ≡ ok (v ∷ rest) = rw (eq, collect_results) refl in
          (v, rest, refl, eq, cc)
      from (err e) eq =
          let whole : collect_results (ok v ∷ xs) ≡ err e = rw (eq, collect_results) refl in
          absurd cc

  collect_results_cons :
      (x : Result E A) (xs : List (Result E A)) (v : A) (rest : List A)
      → x ≡ ok v
      → collect_results xs ≡ ok rest
      → collect_results (x ∷ xs) ≡ ok (v ∷ rest)
  unfolding collect_results
  collect_results_cons x xs v rest hx hxs = rw (hx, collect_results) (rw hxs refl)

  -- The values of two orders of results are two orders of the values.
  pub collect_results-Permᴰ :
      {xs ys : List (Result E A)} (values : List A)
      → Permᴰ xs ys
      → collect_results xs ≡ ok values
      → (values' : List A) × (collect_results ys ≡ ok values') × Permᴰ values values'
  collect_results-Permᴰ values Permᴰ.nil h = (values, h, Permᴰ.refl values)
  collect_results-Permᴰ values (Permᴰ.cons {a} {b} {l₁} {l₂} e p) h =
      let (v, rest, hx, hxs, eq) = collect_results-Split a l₁ values h in
      let (rest', hys, perm) = collect_results-Permᴰ rest p hxs in
      (
        v ∷ rest',
        collect_results_cons b l₂ v rest' (sym e ∙ hx) hys,
        subst (λ l. Permᴰ l (v ∷ rest')) (sym eq) (Permᴰ.cons refl perm),
      )
  collect_results-Permᴰ values (Permᴰ.swap {a} {b} {a'} {b'} {l} e f) h =
      let (v, rest, hx, hxs, eq) = collect_results-Split a (b ∷ l) values h in
      let (w, rest', hy, hys, eq') = collect_results-Split b l rest hxs in
      (
        w ∷ v ∷ rest',
        collect_results_cons a' (b' ∷ l) w (v ∷ rest') (sym f ∙ hy)
            (collect_results_cons b' l v rest' (sym e ∙ hx) hys),
        subst (λ l'. Permᴰ l' (w ∷ v ∷ rest')) (sym (eq ∙ ap (◌∷◌ v) eq')) (Permᴰ.swap refl refl),
      )
  collect_results-Permᴰ values (Permᴰ.trans p q) h =
      let (values', h', perm) = collect_results-Permᴰ values p h in
      let (values'', h'', perm') = collect_results-Permᴰ values' q h' in
      (values'', h'', Permᴰ.trans perm perm')
