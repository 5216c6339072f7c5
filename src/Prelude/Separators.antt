-- ===== src/Prelude/Separators.antt =====
-- Texts that are joined by a colon: what stands before and after the first one.
use Prim.Native.Nat.{ℕ}
use Prim.Native.Char.{Char, code}
use Prim.Native.String.{String, ◌++◌}
use mathlib.Core.Path.{◌≡◌, refl, sym, ap, ◌∙◌}
use mathlib.Core.Bool.{Bool, true, false, not, ◌&&◌}
use native.Mathlib.Omega.{arith}
use text.Mathlib.TextLemmas.{nil-append, cons-append, append_assoc}
use text.Mathlib.TextEquality.{Char-path}
use miya_api.Prelude.Tests.{◌==◌, if◌then◌else◌}

-- `s.chars().all(p)`
unfoldable pub all_chars : (ℕ → Bool) → String → Bool
all_chars p String.[] = true
all_chars p (String.◌∷◌ c s) = p (code c) && all_chars p s

-- `s.starts_with(prefix)`
unfoldable pub starts_with : String → String → Bool
starts_with s String.[] = true
starts_with String.[] (String.◌∷◌ d t) = false
starts_with (String.◌∷◌ c s) (String.◌∷◌ d t) = code c == code d && starts_with s t

abbrev pub no_colon : ℕ → Bool
no_colon c = not (c == b':')

-- `format!("{s}:{t}")`
unfoldable pub join : String → String → String
join s t = s ++ ":" ++ t

before : String → String
before String.[] = String.[]
before (String.◌∷◌ c s) = if no_colon (code c) then String.◌∷◌ c (before s) else String.[]

after : String → String
after String.[] = String.[]
after (String.◌∷◌ c s) = if no_colon (code c) then after s else s

join-cons : (c : Char) (s t : String) → join (String.◌∷◌ c s) t ≡ String.◌∷◌ c (join s t)
unfolding join
join-cons c s t = cons-append c s (":" ++ t)

join-nil : (t : String) → join String.[] t ≡ String.◌∷◌ ":" t
unfolding join
join-nil t = rw (nil-append (":" ++ t)) (rw (cons-append ":" String.[] t) (rw (nil-append t)))

before-join : (s t : String) → all_chars no_colon s ≡ true → before (join s t) ≡ s
unfolding all_chars before
before-join String.[] t h = rw (join-nil t)
before-join (String.◌∷◌ c s) t h = rw (join-cons c s t) (ground (arith, before-join s t))

after-join : (s t : String) → all_chars no_colon s ≡ true → after (join s t) ≡ t
unfolding all_chars after
after-join String.[] t h = rw (join-nil t)
after-join (String.◌∷◌ c s) t h = rw (join-cons c s t) (ground (arith, after-join s t))

module _ (s s' t t' : String) where
  -- A text without a colon is read back from what it begins.
  pub join_injective :
      all_chars no_colon s ≡ true
      → all_chars no_colon s' ≡ true
      → join s t ≡ join s' t'
      → (s ≡ s') × (t ≡ t')
  join_injective h h' e = (
    sym (before-join s t h) ∙ (ap before e ∙ before-join s' t' h'),
    sym (after-join s t h) ∙ (ap after e ∙ after-join s' t' h'),
  )

-- A stronger test of each character holds of a text only if the weaker one does.
pub all_chars_mono :
    (p q : ℕ → Bool)
    → ((c : ℕ) → p c ≡ true → q c ≡ true)
    → (s : String) → all_chars p s ≡ true
    → all_chars q s ≡ true
unfolding all_chars
all_chars_mono p q le String.[] h = refl
all_chars_mono p q le (String.◌∷◌ c s) h = ground (arith, le (code c), all_chars_mono p q le s)

pub join-append : (s t r : String) → join s t ++ r ≡ join s (t ++ r)
unfolding join
join-append s t r = rw (append_assoc s (":" ++ t) r, append_assoc ":" t r)

pub starts_with-append : (s t : String) → starts_with (t ++ s) t ≡ true
unfolding starts_with
starts_with-append s String.[] = refl
starts_with-append s (String.◌∷◌ c t) =
    rw (cons-append c t s) (ground (arith, starts_with-append s t))

-- A text that starts with a prefix is the prefix and a rest.
pub starts_with_rest : (s t : String) → starts_with s t ≡ true → (rest : String) × (s ≡ t ++ rest)
unfolding starts_with
starts_with_rest s String.[] h = (s, sym (nil-append s))
starts_with_rest String.[] (String.◌∷◌ d t) h = absurd (cc)
starts_with_rest (String.◌∷◌ c s) (String.◌∷◌ d t) h =
    let same : code c ≡ code d = ground arith in
    let rest : (rest : String) × (s ≡ t ++ rest) = starts_with_rest s t (ground arith) in
    (rest.0, rw (cons-append d t rest.0, ← rest.1, Char-path c d same))
