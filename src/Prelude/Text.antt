-- ===== src/Prelude/Text.antt =====
-- Rust's `str` methods over the native texts: `trim`, `is_empty`, `parse::<u64>`.
use Prim.Native.Nat.{ℕ, ◌+◌, ◌-◌, ◌*◌}
use Prim.Native.Char.{Char, code}
use Prim.Native.String.{String}
use mathlib.Core.Path.{◌≡◌, refl}
use mathlib.Core.Bool.{Bool, true, false, ◌&&◌, ◌||◌}
use mathlib.Core.Option.{Option, none, some}
use miya_api.Prelude.Tests.{leb, ◌==◌, if◌then◌else◌}
use miya_api.Prelude.Numbers.{u64_max}

-- `char::is_whitespace`: Unicode's White_Space
abbrev pub is_whitespace : ℕ → Bool
is_whitespace c =
    (leb 9 c && leb c 13)
    || c == 32
    || c == 0x85
    || c == 0xA0
    || c == 0x1680
    || (leb 0x2000 c && leb c 0x200A)
    || c == 0x2028
    || c == 0x2029
    || c == 0x202F
    || c == 0x205F
    || c == 0x3000

-- `char::is_ascii_alphanumeric`
abbrev pub is_ascii_alphanumeric : ℕ → Bool
is_ascii_alphanumeric c =
    (leb b'0' c && leb c b'9') || (leb b'A' c && leb c b'Z') || (leb b'a' c && leb c b'z')

unfoldable pub trim_start : String → String
trim_start String.[] = String.[]
trim_start (String.◌∷◌ c s) = if is_whitespace (code c) then trim_start s else String.◌∷◌ c s

-- A character before a rest that is all blank goes if it is blank itself.
abbrev keep_end : Char → String → String
keep_end c String.[] = if is_whitespace (code c) then String.[] else String.◌∷◌ c String.[]
keep_end c (String.◌∷◌ d s) = String.◌∷◌ c (String.◌∷◌ d s)

unfoldable pub trim_end : String → String
trim_end String.[] = String.[]
trim_end (String.◌∷◌ c s) = keep_end c (trim_end s)

unfoldable pub trim : String → String
unfolding trim_start trim_end
trim s = trim_end (trim_start s)

abbrev pub text_is_empty : String → Bool
text_is_empty String.[] = true
text_is_empty (String.◌∷◌ c s) = false

-- `s.trim().is_empty()`
unfoldable pub is_blank : String → Bool
unfolding trim
is_blank s = text_is_empty (trim s)

parse_digits : ℕ → String → Option ℕ
parse_digits acc String.[] = some acc
parse_digits acc (String.◌∷◌ c s) =
    if leb b'0' (code c) && leb (code c) b'9' && leb (acc * 10 + (code c - b'0')) u64_max
    then parse_digits (acc * 10 + (code c - b'0')) s
    else none

parse_unsigned : String → Option ℕ
unfolding parse_digits
parse_unsigned String.[] = none
parse_unsigned (String.◌∷◌ c s) = parse_digits 0 (String.◌∷◌ c s)

-- `s.parse::<u64>().ok()`: digits after an optional plus sign, at least one, with no overflow
unfoldable pub parse_u64 : String → Option ℕ
unfolding parse_unsigned
parse_u64 String.[] = none
parse_u64 (String.◌∷◌ c s) =
    if code c == b'+' then parse_unsigned s else parse_unsigned (String.◌∷◌ c s)

trim_test : trim "  a b\n" ≡ "a b"
unfolding trim
trim_test = refl

parse_u64_test : parse_u64 "+042" ≡ some 42
unfolding parse_u64
parse_u64_test = refl
