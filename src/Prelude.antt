-- ===== src/Prelude.antt =====
-- The names that the other modules share: the libraries', passed on, and those of the children.
mod Tests
mod Lists
mod Keys
mod Numbers
mod Outcome
mod Text
mod Decimal
mod Separators
mod Trimming
pub use Tests.*
pub use Lists.*
unfoldable pub use Keys.*
pub use Numbers.*
pub use Outcome.*
unfoldable pub use Text.{trim, is_blank, parse_u64, text_is_empty, is_ascii_alphanumeric}
pub use Prim.Native.Nat.{ℕ, zero, suc, ◌+◌, ◌-◌, ◌*◌, ◌/◌, ◌%◌, ◌^◌, ◌≤◌, ◌<◌, min, max, Ordering}
pub use Prim.Native.String.{String}
pub use mathlib.Core.Path.{◌≡◌, refl, sym, ap, ◌∙◌, subst}
pub use mathlib.Core.Logic.{◌≢◌, ◌↔◌, ◌⊎◌, inl, inr}
pub use mathlib.Core.Bool.{Bool, true, false, not, ◌&&◌, ◌||◌}
pub use mathlib.Core.Option.{Option, none, some}
pub use mathlib.Core.List.{List, [], ◌∷◌, ◌++◌, map}
pub use native.Mathlib.Omega.{arith}
unfoldable pub use Decimal.{decimal, two_digits}
pub use Decimal.{two_digits_injective}
pub use Trimming.{trim-all_chars, all_chars-append, text_is_empty-append}
unfoldable pub use Separators.{all_chars, starts_with, join}
pub use Separators.{
  no_colon, join_injective, join-append, all_chars_mono, starts_with-append, starts_with_rest,
}
