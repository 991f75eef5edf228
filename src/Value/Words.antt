-- ===== src/Value/Words.antt =====
-- The macros of src/value.h as arithmetic on the fields of the word.
use my_clox.Prelude.{ℕ, ◌+◌, ◌*◌, ◌/◌, ◌%◌, ◌^◌, ◌<◌, ◌≡◌, arith, bit_and, bit_or, ap, ◌∙◌}
use my_clox.Prelude.Bits.{bit_and_high, bit_and_mask, bit_or_high, bit_or_step, bit_or-zero}
use my_clox.Value.{Value, qnan, sign_bit, obj_val, as_obj}

pub bit_and-qnan : (v : Value) → bit_and v qnan ≡ v / 2 ^ 50 % 2 ^ 13 * 2 ^ 50
bit_and-qnan v = bit_and_high 50 v 8191 ∙ ap (λ (t : ℕ). t * 2 ^ 50) (bit_and_mask 13 (v / 2 ^ 50))

pub bit_and_top : (v : Value) → bit_and v (bit_or qnan sign_bit) ≡ v / 2 ^ 50 % 2 ^ 14 * 2 ^ 50
bit_and_top v = bit_and_high 50 v 16383 ∙ ap (λ (t : ℕ). t * 2 ^ 50) (bit_and_mask 14 (v / 2 ^ 50))

pub as_obj_lem : (v : Value) → as_obj v ≡ v % 2 ^ 50
unfolding as_obj
as_obj_lem v = bit_and_mask 50 v

pub obj_val_lem : (p : ℕ) → p < 2 ^ 50 → obj_val p ≡ 16383 * 2 ^ 50 + p
unfolding obj_val
obj_val_lem p h = bit_or_high 50 16383 p h

pub bit_or-one : (v : Value) → bit_or v 1 ≡ v / 2 * 2 + 1
bit_or-one v = omega (arith, bit_or_step v 1, bit_or-zero (v / 2))
