-- ===== src/Prelude/Numbers.antt =====
-- Rust's machine integers: a value of `u16` is a number below `2 ^ 16`, and the saturating
-- operations stop at the greatest value.
use Prim.Native.Nat.{ℕ, zero, suc, ◌+◌, ◌*◌, ◌≤◌, ◌<◌, min, max}
use mathlib.Core.Logic.{◌⊎◌, inl, inr}
use native.Mathlib.Omega.{arith}

abbrev pub u8_max : ℕ
u8_max = 255

abbrev pub u16_max : ℕ
u16_max = 65_535

abbrev pub u32_max : ℕ
u32_max = 4_294_967_295

abbrev pub u64_max : ℕ
u64_max = 18_446_744_073_709_551_615

-- `usize` is 64 bits wide.
abbrev pub usize_max : ℕ
usize_max = u64_max

-- `a.saturating_add(b)` at a type whose greatest value is `top`
abbrev pub saturating_add : ℕ → ℕ → ℕ → ℕ
saturating_add top a b = min (a + b) top

-- `a.saturating_mul(b)`
abbrev pub saturating_mul : ℕ → ℕ → ℕ → ℕ
saturating_mul top a b = min (a * b) top

-- `x.clamp(lo, hi)`, which wants `lo ≤ hi`
abbrev pub clamp : ℕ → ℕ → ℕ → ℕ
clamp x lo hi = min (max x lo) hi

pub lt_or_ge : (a b : ℕ) → (a < b) ⊎ (b ≤ a)
lt_or_ge zero zero = inr (omega arith)
lt_or_ge zero (suc b) = inl (omega arith)
lt_or_ge (suc a) zero = inr (omega arith)
lt_or_ge (suc a) (suc b) = elim (lt_or_ge a b) [
  | inl h ↦ inl (omega arith)
  | inr h ↦ inr (omega arith)
]
