-- ===== src/Protocol/Json.antt =====
-- The values of serde_json, by the variants that the source matches on.
use miya_api.Prelude.{ℕ, Bool, String, Option, none, some, text_ord, ◌=?◌, if◌then◌else◌}

mutual
  pub data Value : Type 0 where
    null : Value
    boolean : Bool → Value
    -- a number whose `as_u64` is this number
    number : ℕ → Value
    -- a negative number or a fraction, by its text: its `as_u64` is `None`
    other_number : String → Value
    string : String → Value
    array : Values → Value
    object : Fields → Value

  pub data Values : Type 0 where
    nil : Values
    cons : Value → Values → Values

  pub data Fields : Type 0 where
    end : Fields
    field : String → Value → Fields → Fields

abbrev pub get_field : String → Fields → Option Value
get_field k end = none
get_field k (field j v fs) = if j =? k then some v else get_field k fs

-- `value.get(key)`: the field of an object, and `None` of any other value
abbrev pub get : String → Value → Option Value
get k (object fs) = get_field k fs
get k null = none
get k (boolean b) = none
get k (number n) = none
get k (other_number t) = none
get k (string t) = none
get k (array vs) = none

-- `value.as_str()`
abbrev pub as_str : Value → Option String
as_str (string t) = some t
as_str _ = none

-- `value.as_u64()`
abbrev pub as_u64 : Value → Option ℕ
as_u64 (number n) = some n
as_u64 _ = none

-- `value.as_bool()`
abbrev pub as_bool : Value → Option Bool
as_bool (boolean b) = some b
as_bool _ = none
