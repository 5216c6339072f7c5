-- ===== src/Tests/Digests.antt =====
-- A digest of tenants that is injective and has no colon: a character as that many `x`, and a `y`.
use Prim.Native.Char.{code}
use text.Mathlib.TextEquality.{Char-path}
use text.Mathlib.TextLemmas.{head-eq_of_cons-eq, tail-eq_of_cons-eq, cons≢nil}
use miya_api.Prelude.{ℕ, zero, suc, ◌≡◌, refl, true, String, all_chars, no_colon, ap, sym, arith}

block : ℕ → String → String
block zero s = String.◌∷◌ "y" s
block (suc n) s = String.◌∷◌ "x" (block n s)

pub digest : String → String
digest String.[] = String.[]
digest (String.◌∷◌ c s) = block (code c) (digest s)

block-no_colon :
    (n : ℕ) (s : String) → all_chars no_colon s ≡ true → all_chars no_colon (block n s) ≡ true
unfolding block all_chars
block-no_colon zero s h = h
block-no_colon (suc n) s h = block-no_colon n s h

pub digest-no_colon : (s : String) → all_chars no_colon (digest s) ≡ true
unfolding digest all_chars
digest-no_colon String.[] = refl
digest-no_colon (String.◌∷◌ c s) = block-no_colon (code c) (digest s) (digest-no_colon s)

block_injective : (m n : ℕ) (s t : String) → block m s ≡ block n t → (m ≡ n) × (s ≡ t)
unfolding block
block_injective zero zero s t h = (refl, tail-eq_of_cons-eq h)
block_injective zero (suc n) s t h = absurd (omega (arith, ap code (head-eq_of_cons-eq h)))
block_injective (suc m) zero s t h = absurd (omega (arith, ap code (head-eq_of_cons-eq h)))
block_injective (suc m) (suc n) s t h =
    let rest = block_injective m n s t (tail-eq_of_cons-eq h) in (ap suc rest.0, rest.1)

block-ne-nil : (n : ℕ) (s : String) → block n s ≡ String.[] → ⊥
unfolding block
block-ne-nil zero s h = cons≢nil h
block-ne-nil (suc n) s h = cons≢nil h

pub digest_injective : (s t : String) → digest s ≡ digest t → s ≡ t
unfolding digest
digest_injective String.[] String.[] h = refl
digest_injective String.[] (String.◌∷◌ d t) h = absurd (block-ne-nil (code d) (digest t) (sym h))
digest_injective (String.◌∷◌ c s) String.[] h = absurd (block-ne-nil (code c) (digest s) h)
digest_injective (String.◌∷◌ c s) (String.◌∷◌ d t) h =
    let same = block_injective (code c) (code d) (digest s) (digest t) h in
    rw (Char-path c d same.0, digest_injective s t same.1) refl
