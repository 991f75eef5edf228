-- ===== src/Tests/ValueRuns.antt =====
-- src/value.h at concrete words.
use my_clox.Prelude.{ℕ, ◌+◌, ◌≤◌, ◌≡◌, refl, true, false, arith, some, none}
use my_clox.Value.{
  nil_val, number_val, is_bool, is_nil, is_number, is_obj, boolean, number, obj, box, values_equal,
  tagged_equal, double_eq, is_nan, is_zero,
}
use my_clox.Value.Boxing.{
  to_nat, kinds_exclusive, box-kinds, unbox, unbox-box, values_equal-box, tag_is_bool, tag_is_nil,
  tag_is_number, tag_is_obj,
}

-- 1.0, -0.0 and the quiet NaN of x86
abbrev one : ℕ
one = 0x3ff0000000000000

abbrev minus_zero : ℕ
minus_zero = 0x8000000000000000

abbrev default_nan : ℕ
default_nan = 0xfff8000000000000

zeros_equal : values_equal (number_val 0) (number_val minus_zero) ≡ true
unfolding values_equal is_number double_eq is_nan is_zero
zeros_equal = refl

nan_differs : values_equal (number_val default_nan) (number_val default_nan) ≡ false
unfolding values_equal is_number double_eq is_nan is_zero
nan_differs = refl

nil_is_itself : values_equal nil_val nil_val ≡ true
unfolding values_equal is_number
nil_is_itself = refl

kinds_exclusive_example :
    to_nat (is_bool 0xfffc000000001000)
      + to_nat (is_nil 0xfffc000000001000)
      + to_nat (is_number 0xfffc000000001000)
      + to_nat (is_obj 0xfffc000000001000)
    ≤ 1
kinds_exclusive_example = kinds_exclusive 0xfffc000000001000 (omega arith)

box-kinds_example :
    (is_bool (box (number default_nan)) ≡ tag_is_bool (number default_nan))
    × (is_nil (box (number default_nan)) ≡ tag_is_nil (number default_nan))
    × (is_number (box (number default_nan)) ≡ tag_is_number (number default_nan))
    × (is_obj (box (number default_nan)) ≡ tag_is_obj (number default_nan))
box-kinds_example = box-kinds (number default_nan) (omega arith)

unbox-box_example : unbox (box (obj 0x7fff00001000)) ≡ some (obj 0x7fff00001000)
unbox-box_example = unbox-box (obj 0x7fff00001000) (omega arith)

values_equal-box_example :
    values_equal (box (boolean true)) (box (number one)) ≡ tagged_equal (boolean true) (number one)
values_equal-box_example = values_equal-box (boolean true) (number one) tt (omega arith)

-- A word that no test of `printValue` takes.
nothing_printed : unbox 0x7ffc000000000000 ≡ none
unfolding unbox is_bool is_nil is_number is_obj
nothing_printed = refl
