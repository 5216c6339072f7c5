-- ===== src/BTreeMap/Defs.antt =====
-- The operations of `std::collections::BTreeMap` that the program calls.
use miya_api.Prelude.{
  ℕ, zero, suc, Ordering, Bool, Option, none, some, List, [], ◌∷◌, Ord, ◌=?◌, is_some,
  if◌then◌else◌,
}

-- Entries in the order of their keys; `insert` keeps that order.
abbrev pub BTreeMap {ℓ} : Type ℓ → Type ℓ → Type ℓ
BTreeMap K V = List (K × V)

abbrev pub empty {ℓ} : {K V : Type ℓ} → BTreeMap K V
empty = []

-- `map.values()`, in the order of the keys
abbrev pub values {ℓ} : {K V : Type ℓ} → BTreeMap K V → List V
values [] = []
values ((k, v) ∷ m) = v ∷ values m

-- `map.len()`
abbrev pub len {ℓ} : {K V : Type ℓ} → BTreeMap K V → ℕ
len [] = zero
len (e ∷ m) = suc (len m)

module _ {ℓ} {K V : Type ℓ} ⦃o : Ord K⦄ where
  unfoldable pub get : K → BTreeMap K V → Option V
  get k [] = none
  get k ((j, v) ∷ m) = if j =? k then some v else get k m

  -- `map.contains_key(k)`
  abbrev pub contains_key : K → BTreeMap K V → Bool
  contains_key k m = is_some (get k m)

  -- A value at a key that is there is replaced.
  unfoldable pub insert : K → V → BTreeMap K V → BTreeMap K V
  insert k v [] = (k, v) ∷ []
  insert k v ((j, w) ∷ m) = elim (o.cmp k j) [
    | Ordering.lt ↦ (k, v) ∷ (j, w) ∷ m
    | Ordering.eq ↦ (k, v) ∷ m
    | Ordering.gt ↦ (j, w) ∷ insert k v m
  ]

  -- `map.get_mut(k)`, when the value that it finds is changed by `f`
  unfoldable pub adjust : K → (V → V) → BTreeMap K V → BTreeMap K V
  adjust k f [] = []
  adjust k f ((j, v) ∷ m) = if j =? k then (j, f v) ∷ m else (j, v) ∷ adjust k f m

  -- `map.remove(k)`; a key is in a map at most once.
  unfoldable pub remove : K → BTreeMap K V → BTreeMap K V
  remove k [] = []
  remove k ((j, v) ∷ m) = if j =? k then remove k m else (j, v) ∷ remove k m
