-- ===== src/Value/Boxing.antt =====
-- The word and the tagged union of src/value.h hold the same values: kinds, payloads and equality.
use my_clox.Prelude.{
  ℕ, ◌+◌, ◌%◌, ◌^◌, ◌≤◌, ◌<◌, ◌≡◌, ◌⊎◌, Bool, true, false, arith, ◌==◌, if◌then◌else◌, inl, inr,
  refl, ◌&&◌, Option, none, some,
}
use my_clox.Value.{
  Value, Double, Ptr, qnan, nil_val, bool_val, obj_val, is_bool, is_nil, is_number, is_obj, as_obj,
  as_bool, as_number, Tagged, boolean, nil, number, obj, box, values_equal, tagged_equal, double_eq,
  bool_eq,
}
use my_clox.Value.Words.{bit_and-qnan, bit_and_top, as_obj_lem, obj_val_lem, bit_or-one}

-- What fits the word: any double but a NaN with its two highest fraction bits set, and a pointer
-- below 2 ^ 50.
abbrev pub IsBoxable : Tagged → Type 0
IsBoxable (number d) = (d < 2 ^ 64) × (d % 2 ^ 63 < qnan)
IsBoxable (obj p) = p < 2 ^ 50
IsBoxable t = Unit {0}

-- The tests and accessors of the tagged union.
abbrev pub tag_is_bool : Tagged → Bool
tag_is_bool (boolean b) = true
tag_is_bool t = false

abbrev pub tag_is_nil : Tagged → Bool
tag_is_nil nil = true
tag_is_nil t = false

abbrev pub tag_is_number : Tagged → Bool
tag_is_number (number d) = true
tag_is_number t = false

abbrev pub tag_is_obj : Tagged → Bool
tag_is_obj (obj p) = true
tag_is_obj t = false

-- The ladder of tests of `printValue`, with the payload that each branch reads; `none` where no
-- test holds and nothing is printed.
unfoldable pub unbox : Value → Option Tagged
unbox value =
    if is_bool value
    then some (boolean (as_bool value))
    else if is_nil value
    then some nil
    else if is_number value
    then some (number (as_number value))
    else if is_obj value
    then some (obj (as_obj value))
    else none

abbrev pub to_nat : Bool → ℕ
to_nat true = 1
to_nat false = 0

-- Every 64-bit word satisfies at most one of `IS_BOOL`, `IS_NIL`, `IS_NUMBER` and `IS_OBJ`.
pub kinds_exclusive :
    (v : Value)
    → v < 2 ^ 64
    → to_nat (is_bool v) + to_nat (is_nil v) + to_nat (is_number v) + to_nat (is_obj v) ≤ 1
unfolding is_bool is_nil is_number is_obj
kinds_exclusive v h = ground (arith, bit_and-qnan v, bit_and_top v, bit_or-one v)

pub is_bool-box : (t : Tagged) → IsBoxable t → is_bool (box t) ≡ tag_is_bool t
unfolding is_bool
is_bool-box (boolean true) h = refl
is_bool-box (boolean false) h = refl
is_bool-box nil h = refl
is_bool-box (number d) h = ground (arith, bit_or-one d)
is_bool-box (obj p) h = ground (arith, obj_val_lem p h, bit_or-one (obj_val p))

pub is_nil-box : (t : Tagged) → IsBoxable t → is_nil (box t) ≡ tag_is_nil t
unfolding is_nil
is_nil-box (boolean true) h = refl
is_nil-box (boolean false) h = refl
is_nil-box nil h = refl
is_nil-box (number d) h = ground arith
is_nil-box (obj p) h = ground (arith, obj_val_lem p h)

pub is_number-box : (t : Tagged) → IsBoxable t → is_number (box t) ≡ tag_is_number t
unfolding is_number
is_number-box (boolean true) h = refl
is_number-box (boolean false) h = refl
is_number-box nil h = refl
is_number-box (number d) h = ground (arith, bit_and-qnan d)
is_number-box (obj p) h = ground (arith, obj_val_lem p h, bit_and-qnan (obj_val p))

pub is_obj-box : (t : Tagged) → IsBoxable t → is_obj (box t) ≡ tag_is_obj t
unfolding is_obj
is_obj-box (boolean true) h = refl
is_obj-box (boolean false) h = refl
is_obj-box nil h = refl
is_obj-box (number d) h = ground (arith, bit_and_top d)
is_obj-box (obj p) h = ground (arith, obj_val_lem p h, bit_and_top (obj_val p))

-- On the word of any value that fits it, each of the four `IS_` macros gives what the tagged
-- union's does.
pub box-kinds :
    (t : Tagged)
    → IsBoxable t
    → (is_bool (box t) ≡ tag_is_bool t)
      × (is_nil (box t) ≡ tag_is_nil t)
      × (is_number (box t) ≡ tag_is_number t)
      × (is_obj (box t) ≡ tag_is_obj t)
box-kinds t h = (is_bool-box t h, is_nil-box t h, is_number-box t h, is_obj-box t h)

pub as_obj-obj_val : (p : Ptr) → p < 2 ^ 50 → as_obj (obj_val p) ≡ p
as_obj-obj_val p h = omega (arith, as_obj_lem (obj_val p), obj_val_lem p h)

-- Reading the word of any value that fits it by the tests of `printValue` gives the value back.
pub unbox-box : (t : Tagged) → IsBoxable t → unbox (box t) ≡ some t
unfolding unbox
unbox-box (boolean true) h = unfold is_bool as_bool in refl
unbox-box (boolean false) h = unfold is_bool as_bool in refl
unbox-box nil h = unfold is_bool is_nil in refl
unbox-box (number d) h =
    rw (is_bool-box (number d) h, is_nil-box (number d) h, is_number-box (number d) h) refl
unbox-box (obj p) h =
    rw
      (
        is_bool-box (obj p) h,
        is_nil-box (obj p) h,
        is_number-box (obj p) h,
        is_obj-box (obj p) h,
        as_obj-obj_val p h,
      )
      refl

bool_eq-words : (a b : Bool) → (bool_val a == bool_val b) ≡ bool_eq a b
bool_eq-words true true = refl
bool_eq-words true false = refl
bool_eq-words false true = refl
bool_eq-words false false = refl

-- A pointer's word is no constant, and no double's.
obj_val-ne :
    (p : Ptr) (v : Value) → p < 2 ^ 50 → v % 2 ^ 63 < qnan ⊎ v < 2 ^ 63 → (v == obj_val p) ≡ false
obj_val-ne p v h k = ground (arith, obj_val_lem p h)

ne_obj_val :
    (p : Ptr) (v : Value) → p < 2 ^ 50 → v % 2 ^ 63 < qnan ⊎ v < 2 ^ 63 → (obj_val p == v) ≡ false
ne_obj_val p v h k = ground (arith, obj_val_lem p h)

bool_val-lt : (b : Bool) → bool_val b < 2 ^ 63
bool_val-lt true = omega arith
bool_val-lt false = omega arith

bool_val-ne_number :
    (b : Bool) (d : Double)
    → d % 2 ^ 63 < qnan
    → ((bool_val b == d) ≡ false) × ((d == bool_val b) ≡ false)
bool_val-ne_number true d h = (ground arith, ground arith)
bool_val-ne_number false d h = (ground arith, ground arith)

bool_val-ne_nil : (b : Bool) → ((bool_val b == nil_val) ≡ false) × ((nil_val == bool_val b) ≡ false)
bool_val-ne_nil true = (refl, refl)
bool_val-ne_nil false = (refl, refl)

words_equal :
    (a b : Tagged)
    → IsBoxable a
    → IsBoxable b
    → (if tag_is_number a && tag_is_number b
        then double_eq (as_number (box a)) (as_number (box b))
        else box a == box b)
      ≡ tagged_equal a b
unfolding tagged_equal
words_equal (boolean a) (boolean b) ha hb = bool_eq-words a b
words_equal (boolean a) nil ha hb = (bool_val-ne_nil a).0
words_equal (boolean a) (number d) ha hb = (bool_val-ne_number a d hb.1).0
words_equal (boolean a) (obj p) ha hb = obj_val-ne p (bool_val a) hb (inr (bool_val-lt a))
words_equal nil (boolean b) ha hb = (bool_val-ne_nil b).1
words_equal nil nil ha hb = refl
words_equal nil (number d) ha hb = ground arith
words_equal nil (obj p) ha hb = obj_val-ne p nil_val hb (inr (omega arith))
words_equal (number d) (boolean b) ha hb = (bool_val-ne_number b d ha.1).1
words_equal (number d) nil ha hb = ground arith
words_equal (number d) (number e) ha hb = refl
words_equal (number d) (obj p) ha hb = obj_val-ne p d hb (inl ha.1)
words_equal (obj p) (boolean b) ha hb = ne_obj_val p (bool_val b) ha (inr (bool_val-lt b))
words_equal (obj p) nil ha hb = ne_obj_val p nil_val ha (inr (omega arith))
words_equal (obj p) (number d) ha hb = ne_obj_val p d ha (inl hb.1)
words_equal (obj p) (obj q) ha hb = ground (arith, obj_val_lem p ha, obj_val_lem q hb)

-- `valuesEqual` on boxed words gives what `valuesEqual` gives on the tagged union, for every pair
-- of values that fit the word.
pub values_equal-box :
    (a b : Tagged) → IsBoxable a → IsBoxable b → values_equal (box a) (box b) ≡ tagged_equal a b
unfolding values_equal
values_equal-box a b ha hb = rw (is_number-box a ha, is_number-box b hb) (words_equal a b ha hb)
