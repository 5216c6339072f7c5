-- ===== src/Prelude/Trimming.antt =====
-- Texts by their characters: those that `trim` leaves as they are, and joined ones.
use Prim.Native.Nat.{ℕ}
use Prim.Native.Char.{code}
use Prim.Native.String.{String, ◌++◌}
use mathlib.Core.Path.{◌≡◌, refl}
use mathlib.Core.Bool.{Bool, true, false}
use native.Mathlib.Omega.{arith}
use text.Mathlib.TextLemmas.{nil-append, cons-append}
use miya_api.Prelude.Text.{text_is_empty, is_whitespace, trim_start, trim_end, trim}
use miya_api.Prelude.Separators.{all_chars}

module _ (p : ℕ → Bool) (no_blank : (c : ℕ) → p c ≡ true → is_whitespace c ≡ false) where
  trim_start-all_chars : (s : String) → all_chars p s ≡ true → trim_start s ≡ s
  unfolding all_chars trim_start
  trim_start-all_chars String.[] h = refl
  trim_start-all_chars (String.◌∷◌ c s) h = rw (no_blank (code c) (ground (arith, h))) refl

  trim_end-all_chars : (s : String) → all_chars p s ≡ true → trim_end s ≡ s
  unfolding all_chars trim_end
  trim_end-all_chars String.[] h = refl
  trim_end-all_chars (String.◌∷◌ c String.[]) h = rw (no_blank (code c) (ground (arith, h))) refl
  trim_end-all_chars (String.◌∷◌ c (String.◌∷◌ d s)) h =
      rw (trim_end-all_chars (String.◌∷◌ d s) (ground (arith, h))) refl

  -- A text of characters that are not blank is its own trimming.
  pub trim-all_chars : (s : String) → all_chars p s ≡ true → trim s ≡ s
  unfolding trim
  trim-all_chars s h = rw (trim_start-all_chars s h, trim_end-all_chars s h) refl

pub all_chars-append :
    (p : ℕ → Bool) (s t : String)
    → all_chars p s ≡ true
    → all_chars p t ≡ true
    → all_chars p (s ++ t) ≡ true
unfolding all_chars
all_chars-append p String.[] t h k = rw (nil-append t) k
all_chars-append p (String.◌∷◌ c s) t h k =
    rw (cons-append c s t) (ground (arith, h, all_chars-append p s t (ground (arith, h)) k))

pub text_is_empty-append : (s t : String) → text_is_empty s ≡ false → text_is_empty (s ++ t) ≡ false
text_is_empty-append String.[] t h = absurd (cc)
text_is_empty-append (String.◌∷◌ c s) t h = rw (cons-append c s t) refl
