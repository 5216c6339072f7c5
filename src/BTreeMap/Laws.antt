-- ===== src/BTreeMap/Laws.antt =====
-- Laws of the maps: a lookup after an insertion, the sizes, and counts over the values.
use miya_api.Prelude.{
  ℕ, ◌+◌, ◌≤◌, ◌≡◌, refl, Bool, true, false, none, some, [], ◌∷◌, Ord, ◌=?◌, arith, length, filter,
  if◌then◌else◌,
}
use mathlib.Core.Option
use miya_api.BTreeMap.Defs.{BTreeMap, get, insert, adjust, remove, values, len}

-- How many values of the map pass the test.
abbrev pub count_values {ℓ} : {K V : Type ℓ} → (V → Bool) → BTreeMap K V → ℕ
count_values p m = length (filter p (values m))

module _ {ℓ} {K V : Type ℓ} ⦃o : Ord K⦄ where
  pub get-insert :
      (k j : K) (v : V) (m : BTreeMap K V)
      → get j (insert k v m) ≡ (if k =? j then some v else get j m)
  unfolding get insert
  get-insert k j v [] = refl
  get-insert k j v ((i, w) ∷ m) =
      ground (arith, o.cmp_eq k j, o.cmp_eq k i, o.cmp_eq i j, get-insert k j v m)

  pub len-insert-le : (k : K) (v : V) (m : BTreeMap K V) → len (insert k v m) ≤ len m + 1
  unfolding insert
  len-insert-le k v [] = omega arith
  len-insert-le k v ((i, w) ∷ m) = ground (arith, len-insert-le k v m)

  pub len-le-insert : (k : K) (v : V) (m : BTreeMap K V) → len m ≤ len (insert k v m)
  unfolding insert
  len-le-insert k v [] = omega arith
  len-le-insert k v ((i, w) ∷ m) = ground (arith, len-le-insert k v m)

  pub len-insert_new :
      (k : K) (v : V) (m : BTreeMap K V) → get k m ≡ none → len (insert k v m) ≡ len m + 1
  unfolding get insert
  len-insert_new k v [] h = omega arith
  len-insert_new k v ((i, w) ∷ m) h =
      ground (arith, o.cmp_eq k i, o.cmp_eq i k, len-insert_new k v m)

  pub count_values-insert-le :
      (p : V → Bool) (k : K) (v : V) (m : BTreeMap K V)
      → count_values p (insert k v m) ≤ count_values p m + (if p v then 1 else 0)
  unfolding insert
  count_values-insert-le p k v [] = ground arith
  count_values-insert-le p k v ((i, w) ∷ m) = ground (arith, count_values-insert-le p k v m)

  pub count_values-insert_new :
      (p : V → Bool) (k : K) (v : V) (m : BTreeMap K V)
      → get k m ≡ none
      → count_values p (insert k v m) ≡ count_values p m + (if p v then 1 else 0)
  unfolding get insert
  count_values-insert_new p k v [] h = ground arith
  count_values-insert_new p k v ((i, w) ∷ m) h =
      ground (arith, o.cmp_eq k i, o.cmp_eq i k, count_values-insert_new p k v m)

  pub get-adjust :
      (k j : K) (f : V → V) (m : BTreeMap K V)
      → get j (adjust k f m) ≡ (if k =? j then Option.map f (get j m) else get j m)
  unfolding get adjust
  get-adjust k j f [] = ground arith
  get-adjust k j f ((i, w) ∷ m) =
      ground (arith, o.cmp_eq k j, o.cmp_eq i k, o.cmp_eq i j, get-adjust k j f m)

  pub len-adjust : (k : K) (f : V → V) (m : BTreeMap K V) → len (adjust k f m) ≡ len m
  unfolding adjust
  len-adjust k f [] = refl
  len-adjust k f ((i, w) ∷ m) = ground (arith, len-adjust k f m)

  pub get-remove :
      (k j : K) (m : BTreeMap K V) → get j (remove k m) ≡ (if k =? j then none else get j m)
  unfolding get remove
  get-remove k j [] = ground arith
  get-remove k j ((i, w) ∷ m) =
      ground (arith, o.cmp_eq k j, o.cmp_eq i k, o.cmp_eq i j, get-remove k j m)

  -- What a selection of entries by their keys does not see can be written and removed.
  pub filter-insert :
      (p : K → Bool) (k : K) (v : V) (m : BTreeMap K V)
      → p k ≡ false
      → filter (λ (e : K × V). p e.0) (insert k v m) ≡ filter (λ (e : K × V). p e.0) m
  unfolding insert
  filter-insert p k v [] h = ground arith
  filter-insert p k v ((i, w) ∷ m) h = ground (arith, o.cmp_eq k i, filter-insert p k v m)

  pub filter-remove :
      (p : K → Bool) (k : K) (m : BTreeMap K V)
      → p k ≡ false
      → filter (λ (e : K × V). p e.0) (remove k m) ≡ filter (λ (e : K × V). p e.0) m
  unfolding remove
  filter-remove p k [] h = refl
  filter-remove p k ((i, w) ∷ m) h = ground (arith, o.cmp_eq i k, filter-remove p k m)

  -- The second value at a key replaces the first.
  pub insert-insert :
      (k : K) (v w : V) (m : BTreeMap K V) → insert k w (insert k v m) ≡ insert k w m
  unfolding insert
  insert-insert k v w [] = ground (arith, o.cmp_eq k k)
  insert-insert k v w ((i, u) ∷ m) =
      ground (arith, o.cmp_eq k k, o.cmp_eq k i, insert-insert k v w m)

  pub count_values-insert_twice-le :
      (p : V → Bool) (j k : K) (v w : V) (m : BTreeMap K V)
      → k ≡ j
      → count_values p (insert k w (insert j v m)) ≤ count_values p m + 1
  count_values-insert_twice-le p j k v w m same =
      rw (same, insert-insert j v w m) (ground (arith, count_values-insert-le p j w m))

  -- An entry whose value passes the test is still there among those that pass it.
  pub get-filter :
      (q : V → Bool) (k : K) (v : V) (m : BTreeMap K V)
      → get k m ≡ some v
      → q v ≡ true
      → get k (filter (λ (e : K × V). q e.1) m) ≡ some v
  unfolding get
  get-filter q k v [] h t = absurd (cc)
  get-filter q k v ((j, w) ∷ m) h t = ground (arith, h, t, get-filter q k v m)
