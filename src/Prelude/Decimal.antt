-- ===== src/Prelude/Decimal.antt =====
-- Rust's decimal formatting, `{}` and `{:02}`, of an unsigned integer: the text determines the
-- number.
use Prim.Native.Nat.{ℕ, zero, suc, ◌+◌, ◌-◌, ◌*◌, ◌/◌, ◌%◌, ◌<◌}
use Prim.Native.Char.{code}
use Prim.Native.String.{String, ◌++◌}
use mathlib.Core.Path.{◌≡◌, refl, ◌∙◌, ap, sym}
use native.Mathlib.Omega.{arith}
use text.Mathlib.TextLemmas.{nil-append, cons-append}
use miya_api.Prelude.Tests.{ltb, if◌then◌else◌, Bool-cases}
use mathlib.Core.Logic.{inl, inr}

digit_text : ℕ → String
digit_text zero = "0"
digit_text (suc zero) = "1"
digit_text (suc (suc zero)) = "2"
digit_text (suc (suc (suc zero))) = "3"
digit_text (suc (suc (suc (suc zero)))) = "4"
digit_text (suc (suc (suc (suc (suc zero))))) = "5"
digit_text (suc (suc (suc (suc (suc (suc zero)))))) = "6"
digit_text (suc (suc (suc (suc (suc (suc (suc zero))))))) = "7"
digit_text (suc (suc (suc (suc (suc (suc (suc (suc zero)))))))) = "8"
digit_text _ = "9"

-- The fuel `n + 1` is enough, since a division by ten makes a positive number smaller.
digits_of : ℕ → ℕ → String
unfolding digit_text
digits_of zero n = ""
digits_of (suc fuel) n =
    let rest = digits_of fuel (n / 10) ++ digit_text (n % 10) in
    if ltb n 10 then digit_text n else rest

-- `format!("{n}")`
unfoldable pub decimal : ℕ → String
unfolding digits_of
decimal n = digits_of (n + 1) n

-- `format!("{n:02}")`
unfoldable pub two_digits : ℕ → String
unfolding decimal
two_digits n = if ltb n 10 then "0" ++ decimal n else decimal n

-- The number that follows `acc` and the digits of a text.
read_digits : ℕ → String → ℕ
read_digits acc String.[] = acc
read_digits acc (String.◌∷◌ c s) = read_digits (acc * 10 + (code c - 48)) s

read_digits-append :
    (acc : ℕ) (s t : String) → read_digits acc (s ++ t) ≡ read_digits (read_digits acc s) t
unfolding read_digits
read_digits-append acc String.[] t = rw (nil-append t)
read_digits-append acc (String.◌∷◌ c s) t =
    rw (cons-append c s t) (read_digits-append (acc * 10 + (code c - 48)) s t)

read_digit : (acc d : ℕ) → d < 10 → read_digits acc (digit_text d) ≡ acc * 10 + d
unfolding read_digits digit_text
read_digit acc zero h = refl
read_digit acc (suc zero) h = refl
read_digit acc (suc (suc zero)) h = refl
read_digit acc (suc (suc (suc zero))) h = refl
read_digit acc (suc (suc (suc (suc zero)))) h = refl
read_digit acc (suc (suc (suc (suc (suc zero))))) h = refl
read_digit acc (suc (suc (suc (suc (suc (suc zero)))))) h = refl
read_digit acc (suc (suc (suc (suc (suc (suc (suc zero))))))) h = refl
read_digit acc (suc (suc (suc (suc (suc (suc (suc (suc zero)))))))) h = refl
read_digit acc (suc (suc (suc (suc (suc (suc (suc (suc (suc zero))))))))) h = refl
read_digit acc (suc (suc (suc (suc (suc (suc (suc (suc (suc (suc n)))))))))) h =
    absurd (omega arith)

read_digits_of : (fuel n : ℕ) → n < fuel → read_digits 0 (digits_of fuel n) ≡ n
unfolding digits_of
read_digits_of zero n h = absurd (omega arith)
read_digits_of (suc fuel) n h = elim (Bool-cases (ltb n 10)) [
  | inl small ↦ rw (small, digits_of) (read_digit 0 n (ground arith) ∙ omega arith)
  | inr large ↦
      rw (large, digits_of)
        (rw (read_digits-append 0 (digits_of fuel (n / 10)) (digit_text (n % 10))) (
          read_digit _ (n % 10) (omega arith)
          ∙ omega (arith, read_digits_of fuel (n / 10) (ground arith))))
]

read-two_digits : (n : ℕ) → read_digits 0 (two_digits n) ≡ n
unfolding two_digits
read-two_digits n = elim (Bool-cases (ltb n 10)) [
  | inl small ↦
      rw (small, two_digits)
        (rw (read_digits-append 0 "0" (decimal n))
          (unfold read_digits in read_digits_of (n + 1) n (omega arith)))
  | inr large ↦ rw (large, two_digits) (unfold decimal in read_digits_of (n + 1) n (omega arith))
]

pub two_digits_injective : (m n : ℕ) → two_digits m ≡ two_digits n → m ≡ n
two_digits_injective m n h = sym (read-two_digits m) ∙ (ap (read_digits 0) h ∙ read-two_digits n)

two_digits_tests : (two_digits 7 ≡ "07") × (two_digits 64 ≡ "64") × (decimal 1205 ≡ "1205")
unfolding two_digits decimal
two_digits_tests = (refl, refl, refl)
