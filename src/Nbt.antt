-- ===== src/Nbt.antt =====
-- internal/nbt/type.go and value.go: the tag types, the values and the errors.
pub mod Text
pub mod Write
pub mod Read
pub mod Keys
pub mod RoundTrip
pub mod Total
mod Tests
use cyu_core.Base.{
  ℕ, zero, suc, ◌+◌, ◌*◌, Bool, true, false, ◌&&◌, not, List, [], ◌∷◌, ltb, leb, ◌==◌,
  if◌then◌else◌, Outcome, ok, err, ◌>>=◌,
}
use cyu_core.Stream.{IoError}
use cyu_core.Nbt.Text.{Error as TextError}

-- A Type is its byte.
abbrev pub end : ℕ
end = 0

abbrev pub byte_type : ℕ
byte_type = 1

abbrev pub short_type : ℕ
short_type = 2

abbrev pub int_type : ℕ
int_type = 3

abbrev pub long_type : ℕ
long_type = 4

abbrev pub float_type : ℕ
float_type = 5

abbrev pub double_type : ℕ
double_type = 6

abbrev pub byte_array_type : ℕ
byte_array_type = 7

abbrev pub string_type : ℕ
string_type = 8

abbrev pub list_type : ℕ
list_type = 9

abbrev pub compound_type : ℕ
compound_type = 10

abbrev pub int_array_type : ℕ
int_array_type = 11

abbrev pub long_array_type : ℕ
long_array_type = 12

abbrev pub valid_value_type : ℕ → Bool
valid_value_type t = leb byte_type t && leb t long_array_type

abbrev pub default_max_depth : ℕ
default_max_depth = 512

abbrev pub max_int32 : ℕ
max_int32 = 2147483647

-- The errors of the writer and the reader. `stuck` is no Go value: a loop of the model ran out of
-- fuel.
pub data Error : Type 0 where
  io : IoError → Error
  text : TextError → Error
  invalid_root_type invalid_element_type invalid_entry_type unsupported_type : ℕ → Error
  nil_root nil_value nil_element : Error
  heterogeneous_list : (want got : ℕ) → Error
  nesting_too_deep : Error
  length_overflow negative_length : ℕ → Error
  duplicate_key : List ℕ → Error
  stuck : Error

abbrev pub from_text {ℓ} : {A : Type ℓ} → Outcome TextError A → Outcome Error A
from_text (ok a) = ok a
from_text (err e) = err (text e)

abbrev pub from_reader {ℓ} : {A : Type ℓ} → Outcome IoError A → Outcome Error A
from_reader (ok a) = ok a
from_reader (err e) = err (io e)

-- A Value is `null` where the Go interface is nil. Numbers are their bit patterns, floats too. A
-- Compound, a Go map, is its entries in the order of their keys.
mutual
  pub data Value : Type 0 where
    null : Value
    byte short int long float double : ℕ → Value
    byte_array string int_array long_array : List ℕ → Value
    list : (element_type : ℕ) → Items → Value
    compound : Fields → Value

  pub data Items : Type 0 where
    nil : Items
    cons : Value → Items → Items

  pub data Fields : Type 0 where
    empty : Fields
    field : List ℕ → Value → Fields → Fields

-- The method Type. The code never calls it on nil; `end` stands for that case.
abbrev pub value_type : Value → ℕ
value_type null = end
value_type (byte v) = byte_type
value_type (short v) = short_type
value_type (int v) = int_type
value_type (long v) = long_type
value_type (float v) = float_type
value_type (double v) = double_type
value_type (byte_array bs) = byte_array_type
value_type (string s) = string_type
value_type (int_array ws) = int_array_type
value_type (long_array ws) = long_array_type
value_type (list t vs) = list_type
value_type (compound fs) = compound_type

abbrev pub is_nil : Value → Bool
is_nil null = true
is_nil _ = false

abbrev pub count_items : Items → ℕ
count_items nil = 0
count_items (cons v vs) = suc (count_items vs)

-- The order of sort.Strings. UTF-8 keeps the order of code points, so runes compare as bytes do.
pub data KeyOrder : Type 0 where
  before same after : KeyOrder

abbrev pub compare_keys : List ℕ → List ℕ → KeyOrder
compare_keys [] [] = same
compare_keys [] (s ∷ ss) = before
compare_keys (r ∷ rs) [] = after
compare_keys (r ∷ rs) (s ∷ ss) =
    if ltb r s then before else if ltb s r then after else compare_keys rs ss

-- `value[name]` as a test, and `value[name] = entry`.
unfoldable pub has_key : List ℕ → Fields → Bool
has_key k empty = false
has_key k (field j v fs) = elim (compare_keys k j) [
  | before ↦ false
  | same ↦ true
  | after ↦ has_key k fs
]

unfoldable pub set_key : List ℕ → Value → Fields → Fields
set_key k v empty = field k v empty
set_key k v (field j w fs) = elim (compare_keys k j) [
  | before ↦ field k v (field j w fs)
  | same ↦ field k v fs
  | after ↦ field j w (set_key k v fs)
]

-- NewList.
unfoldable pub new_list_loop : (element_type : ℕ) → Items → Outcome Error Items
new_list_loop t nil = ok nil
new_list_loop t (cons v vs) =
    if is_nil v
    then err nil_element
    else if not (value_type v == t)
    then err (heterogeneous_list t (value_type v))
    else do vs' ← new_list_loop t vs; ok (cons v vs')

unfoldable pub new_list : Items → Outcome Error Value
new_list nil = ok (list end nil)
new_list (cons v vs) =
    if is_nil v
    then err nil_element
    else if not (valid_value_type (value_type v))
    then err (invalid_element_type (value_type v))
    else do vs' ← new_list_loop (value_type v) (cons v vs); ok (list (value_type v) vs')
