-- ===== src/Value.antt =====
-- src/value.h and src/value.c: a Lox value is one 64-bit word (`NAN_BOXING`, which common.h
-- defines). A double is its IEEE 754 binary64 bit pattern, a pointer its address. The tagged union
-- of the `#else` branches is modelled beside the word that it is traded for.
pub mod Words
pub mod Boxing
use my_clox.Prelude.{
  ℕ, ◌+◌, ◌-◌, ◌*◌, ◌%◌, ◌^◌, Bool, true, false, not, ◌&&◌, ◌||◌, ltb, ◌==◌, if◌then◌else◌, bit_and,
  bit_or,
}

abbrev pub Value : Type 0
Value = ℕ

abbrev pub Double : Type 0
Double = ℕ

abbrev pub Ptr : Type 0
Ptr = ℕ

abbrev pub null : Ptr
null = 0

abbrev pub sign_bit : Value
sign_bit = 0x8000000000000000

abbrev pub qnan : Value
qnan = 0x7ffc000000000000

-- `QNAN | TAG_NIL`, `QNAN | TAG_FALSE`, `QNAN | TAG_TRUE`
abbrev pub nil_val : Value
nil_val = bit_or qnan 1

abbrev pub false_val : Value
false_val = bit_or qnan 2

abbrev pub true_val : Value
true_val = bit_or qnan 3

abbrev pub bool_val : Bool → Value
bool_val b = if b then true_val else false_val

-- `numToValue` and `valueToNum` copy the bytes.
abbrev pub number_val : Double → Value
number_val num = num

unfoldable pub obj_val : Ptr → Value
obj_val obj = bit_or (bit_or sign_bit qnan) obj

unfoldable pub is_bool : Value → Bool
is_bool value = bit_or value 1 == true_val

unfoldable pub is_nil : Value → Bool
is_nil value = value == nil_val

unfoldable pub is_number : Value → Bool
is_number value = not (bit_and value qnan == qnan)

unfoldable pub is_obj : Value → Bool
is_obj value = bit_and value (bit_or qnan sign_bit) == bit_or qnan sign_bit

unfoldable pub as_bool : Value → Bool
as_bool value = value == true_val

abbrev pub as_number : Value → Double
as_number value = value

-- `~(SIGN_BIT | QNAN)` on `uint64_t`
unfoldable pub as_obj : Value → Ptr
as_obj value = bit_and value (2 ^ 64 - 1 - bit_or sign_bit qnan)

-- `a == b` on doubles: a NaN differs from everything, and the two zeros are equal.
unfoldable pub is_nan : Double → Bool
is_nan d = ltb 0x7ff0000000000000 (d % 2 ^ 63)

unfoldable pub is_zero : Double → Bool
is_zero d = d % 2 ^ 63 == 0

unfoldable pub double_eq : Double → Double → Bool
unfolding is_nan is_zero
double_eq a b = not (is_nan a) && not (is_nan b) && (a == b || is_zero a && is_zero b)

-- `valuesEqual` under `NAN_BOXING`
unfoldable pub values_equal : Value → Value → Bool
values_equal a b =
    if is_number a && is_number b then double_eq (as_number a) (as_number b) else a == b

-- The tagged union, and `valuesEqual` under `#else`.
pub data Tagged : Type 0 where
  boolean : Bool → Tagged
  nil : Tagged
  number : Double → Tagged
  obj : Ptr → Tagged

abbrev pub bool_eq : Bool → Bool → Bool
bool_eq true b = b
bool_eq false b = not b

unfoldable pub tagged_equal : Tagged → Tagged → Bool
tagged_equal (boolean a) (boolean b) = bool_eq a b
tagged_equal nil nil = true
tagged_equal (number a) (number b) = double_eq a b
tagged_equal (obj a) (obj b) = a == b
tagged_equal a b = false

-- `BOOL_VAL`, `NIL_VAL`, `NUMBER_VAL` and `OBJ_VAL` at each kind of value.
abbrev pub box : Tagged → Value
box (boolean b) = bool_val b
box nil = nil_val
box (number d) = number_val d
box (obj p) = obj_val p
