-- ===== src/Fleet/Json.antt =====
-- The values of a JSON object, as state.json and pid.json hold them, and the built-ins that the
-- fleet's code applies to them.
use text.Mathlib.Text.{◌==◌ as str_eq}
use datasource_kit.Prelude.{ℕ, Bool, true, false, Option, none, some, String}
use datasource_kit.Prelude.Int.{ℤ, pos, eqb_ℤ}
use datasource_kit.Prelude.Dict.{Dict, lookup}
use datasource_kit.Effect.{Result, ok, raised, type_error, value_error}

-- `other n` is an array, an object or a float
pub data Value : Type 0 where
  null : Value
  boolean : Bool → Value
  int : ℤ → Value
  str : String → Value
  other : ℕ → Value

-- Built-ins on texts and on other values: `int(...)` where it succeeds, and `str(...)`; and the
-- texts that uuid4 mints.
pub record Runtime : Type 0 where
  pub int_of_text : String → Option ℤ
  pub int_of_other : ℕ → Option ℤ
  pub str_of : Value → String
  pub uuid_hex : ℕ → String

abbrev from_option : {A : Type 0} → Result A → Option A → Result A
from_option failure none = failure
from_option failure (some a) = ok a

-- a bool is an int
abbrev pub int_of_bool : Bool → ℤ
int_of_bool true = pos 1
int_of_bool false = pos 0

-- `int(value)`
unfoldable pub to_int : Runtime → Value → Result ℤ
to_int rt Value.null = raised type_error
to_int rt (boolean b) = ok (int_of_bool b)
to_int rt (int n) = ok n
to_int rt (str s) = from_option (raised value_error) (rt.int_of_text s)
to_int rt (other n) = from_option (raised type_error) (rt.int_of_other n)

-- the int that a value is, if `isinstance(value, int)`
abbrev pub as_int : Value → Option ℤ
as_int (boolean b) = some (int_of_bool b)
as_int (int n) = some n
as_int _ = none

abbrev or_null : Option Value → Value
or_null none = Value.null
or_null (some v) = v

-- `d.get(key)`
abbrev pub get : Dict Value → String → Value
get d key = or_null (lookup key d)

-- `value == other`, for the texts and ints that the code compares; the kit writes no float there
abbrev pub is_text : String → Value → Bool
is_text s (str t) = str_eq s t
is_text s _ = false

abbrev equal_ints : Option ℤ → ℤ → Bool
equal_ints none m = false
equal_ints (some n) m = eqb_ℤ n m

abbrev pub is_int : ℤ → Value → Bool
is_int m v = equal_ints (as_int v) m
