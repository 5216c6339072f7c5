-- ===== src/Prelude/Keys.antt =====
-- Keys of Rust's ordered maps: `Ord` with the one law that lookups rely on, at numbers, texts and
-- pairs. Rust's derived order of a struct is the lexicographic order of its fields.
use Prim.Native.Nat.{ℕ, compare, Ordering}
use Prim.Native.String.{String, compare as compare_text}
use mathlib.Core.Path.{◌≡◌, refl}
use mathlib.Core.Logic.{◌↔◌}
use mathlib.Core.Bool.{Bool, true, false, ◌&&◌}
use native.Mathlib.Omega.{arith}
use text.Mathlib.TextEquality.{path_by_compare}
use text.Mathlib.TextPositions.{compare_refl}

pub record Ord {ℓ} (A : Type ℓ) : Type ℓ where
  pub cmp : A → A → Ordering
  pub cmp_eq : (a b : A) → (cmp a b ≡ Ordering.eq) ↔ (a ≡ b)

-- `Ordering::then`
abbrev pub then_cmp : Ordering → Ordering → Ordering
then_cmp Ordering.lt o = Ordering.lt
then_cmp Ordering.eq o = o
then_cmp Ordering.gt o = Ordering.gt

module _ {ℓ} {A : Type ℓ} ⦃o : Ord A⦄ where
  infix 50 ◌=?◌
  abbrev pub ◌=?◌ : A → A → Bool
  a =? b = elim (o.cmp a b) [ Ordering.eq ↦ true | _ ↦ false ]

  pub =?_iff : (a b : A) → ((a =? b) ≡ true) ↔ (a ≡ b)
  =?_iff a b = (λ h. (o.cmp_eq a b).0 (ground arith), λ h. ground (arith, (o.cmp_eq a b).1 h))

  pub =?_refl : (a : A) → (a =? a) ≡ true
  =?_refl a = (=?_iff a a).1 refl

pub compare_eq : (a b : ℕ) → (compare a b ≡ Ordering.eq) ↔ (a ≡ b)
compare_eq a b = (λ h. ground arith, λ h. ground arith)

pub text_eq : (s t : String) → (compare_text s t ≡ Ordering.eq) ↔ (s ≡ t)
text_eq s t = (path_by_compare s t, λ h. rw (← h) (compare_refl s))

instance abbrev pub nat_ord : Ord ℕ
nat_ord = record { cmp = compare; cmp_eq = compare_eq }

instance abbrev pub text_ord : Ord String
text_ord = record { cmp = compare_text; cmp_eq = text_eq }

module _ {ℓ} {A B : Type ℓ} ⦃o : Ord A⦄ ⦃q : Ord B⦄ where
  unfoldable pub cmp_pair : A × B → A × B → Ordering
  cmp_pair (a, b) (c, d) = then_cmp (o.cmp a c) (q.cmp b d)

  pub cmp_pair_eq : (x y : A × B) → (cmp_pair x y ≡ Ordering.eq) ↔ (x ≡ y)
  unfolding cmp_pair
  cmp_pair_eq (a, b) (c, d) = (
    λ h. ground (arith, (o.cmp_eq a c).0, (q.cmp_eq b d).0),
    λ h. ground (arith, (o.cmp_eq a c).1, (q.cmp_eq b d).1),
  )

  instance abbrev pub pair_ord : Ord (A × B)
  pair_ord = record { cmp = cmp_pair; cmp_eq = cmp_pair_eq }

  -- Two pairs are equal when both parts are.
  pub pair_test : (a c : A) (b d : B) → ◌=?◌ {A = A × B} (a, b) (c, d) ≡ (a =? c && b =? d)
  unfolding cmp_pair
  pair_test a c b d = ground arith
