-- ===== src/Prelude/Bits.antt =====
-- Facts about `bit_and` and `bit_or` at variables: one binary digit at a time, masks and shifts.
use Prim.Native.Nat.{
  ℕ, zero, suc, ◌+◌, ◌-◌, ◌*◌, ◌/◌, ◌%◌, ◌^◌, ◌≤◌, ◌<◌, min, max, bit_and, bit_or, digits, bitwise,
  bit_and-bitwise, bit_or-bitwise,
}
use mathlib.Core.Path.{◌≡◌, refl, ap, sym, ◌∙◌}
use mathlib.Core.Logic.{inl, inr}
use my_clox.Prelude.Tests.{eq_cases}
use native.Mathlib.Nat.{pow-succ', one-le-pow, div-div-eq-div-mul}
use native.Mathlib.Omega.{arith}

module _ (z : ℕ → ℕ) (f : ℕ → ℕ → ℕ) where
  -- A spare round of the digit recursion does nothing.
  spare_round : (n a b : ℕ) → a ≤ n → digits z f (suc n) a b ≡ digits z f n a b
  spare_round zero zero b h = refl
  spare_round (suc n) zero b h = refl
  spare_round zero (suc a) b h = absurd (omega arith)
  spare_round (suc n) (suc a) b h =
      ap (λ (high : ℕ). high * 2 + f (suc a % 2) (b % 2))
        (spare_round n (suc a / 2) (b / 2) (omega arith))

  enough_rounds : (n a b : ℕ) → a ≤ n → digits z f n a b ≡ bitwise z f a b
  enough_rounds zero zero b h = refl
  enough_rounds zero (suc a) b h = absurd (omega arith)
  enough_rounds (suc n) a b h = elim (eq_cases a (suc n)) [
    | inl all ↦ ap (λ (k : ℕ). digits z f k a b) (sym all)
    | inr fewer ↦ spare_round n a b (omega arith) ∙ enough_rounds n a b (omega arith)
  ]

  lowest_digit :
      (a b : ℕ)
      → z b ≡ z (b / 2) * 2 + f 0 (b % 2)
      → bitwise z f a b ≡ bitwise z f (a / 2) (b / 2) * 2 + f (a % 2) (b % 2)
  lowest_digit zero b h = h
  lowest_digit (suc a) b h =
      ap (λ (high : ℕ). high * 2 + f (suc a % 2) (b % 2))
        (enough_rounds a (suc a / 2) (b / 2) (omega arith))

-- The lowest digit of a conjunction and of a disjunction, and the rest.
pub bit_and_step : (a b : ℕ) → bit_and a b ≡ bit_and (a / 2) (b / 2) * 2 + min (a % 2) (b % 2)
bit_and_step a b =
    rw (bit_and-bitwise, bit_and-bitwise) (lowest_digit (λ y. zero) min a b (omega arith))

pub bit_or_step : (a b : ℕ) → bit_or a b ≡ bit_or (a / 2) (b / 2) * 2 + max (a % 2) (b % 2)
bit_or_step a b = rw (bit_or-bitwise, bit_or-bitwise) (lowest_digit (λ y. y) max a b (omega arith))

zero-bit_and : (b : ℕ) → bit_and 0 b ≡ 0
zero-bit_and b = bit_and-bitwise 0 b

zero-bit_or : (b : ℕ) → bit_or 0 b ≡ b
zero-bit_or b = bit_or-bitwise 0 b

bit_and-zero_below : (n a : ℕ) → a ≤ n → bit_and a 0 ≡ 0
bit_and-zero_below n zero h = zero-bit_and 0
bit_and-zero_below zero (suc a) h = absurd (omega arith)
bit_and-zero_below (suc n) (suc a) h =
    omega (arith, bit_and_step (suc a) 0, bit_and-zero_below n (suc a / 2) (omega arith))

pub bit_and-zero : (a : ℕ) → bit_and a 0 ≡ 0
bit_and-zero a = bit_and-zero_below a a (omega arith)

bit_or-zero_below : (n a : ℕ) → a ≤ n → bit_or a 0 ≡ a
bit_or-zero_below n zero h = zero-bit_or 0
bit_or-zero_below zero (suc a) h = absurd (omega arith)
bit_or-zero_below (suc n) (suc a) h =
    omega (arith, bit_or_step (suc a) 0, bit_or-zero_below n (suc a / 2) (omega arith))

pub bit_or-zero : (a : ℕ) → bit_or a 0 ≡ a
bit_or-zero a = bit_or-zero_below a a (omega arith)

half_double : (t : ℕ) → 2 * t / 2 ≡ t
half_double t = omega arith

half_ones : (n m : ℕ) → m ≡ 2 * n → 1 ≤ n → (m - 1) / 2 ≡ n - 1
half_ones n m e h = omega arith

pub mod_double : (n a : ℕ) → 1 ≤ n → a % (2 * n) ≡ a / 2 % n * 2 + a % 2
mod_double n a h = grind (arith)

mul_pow_suc : (m k : ℕ) → m * 2 ^ suc k ≡ 2 * (m * 2 ^ k)
mul_pow_suc m k = omega (arith, ap (λ (t : ℕ). m * t) (pow-succ' 2 k))

div_pow_suc : (a k : ℕ) → a / 2 ^ suc k ≡ a / 2 / 2 ^ k
div_pow_suc a k = rw (div-div-eq-div-mul, pow-succ' 2 k)

-- A mask whose low `k` bits are clear reads the high part alone.
pub bit_and_high : (k a m : ℕ) → bit_and a (m * 2 ^ k) ≡ bit_and (a / 2 ^ k) m * 2 ^ k
bit_and_high zero a m = ground (arith)
bit_and_high (suc k) a m = omega (
  arith,
  ap (bit_and a) (mul_pow_suc m k),
  bit_and_step a (2 * (m * 2 ^ k)),
  ap (bit_and (a / 2)) (half_double (m * 2 ^ k)),
  bit_and_high k (a / 2) m,
  mul_pow_suc (bit_and (a / 2 ^ suc k) m) k,
  ap (λ (t : ℕ). bit_and t m * 2 ^ k) (div_pow_suc a k),
)

-- A mask of `k` ones is the remainder by `2 ^ k`.
pub bit_and_mask : (k a : ℕ) → bit_and a (2 ^ k - 1) ≡ a % 2 ^ k
bit_and_mask zero a = omega (arith, bit_and-zero a)
bit_and_mask (suc k) a = omega (
  arith,
  one-le-pow k 2 (omega arith),
  bit_and_step a (2 ^ suc k - 1),
  ap (bit_and (a / 2))
      (half_ones (2 ^ k) (2 ^ suc k) (pow-succ' 2 k) (one-le-pow k 2 (omega arith))),
  bit_and_mask k (a / 2),
  mod_double (2 ^ k) a (one-le-pow k 2 (omega arith)),
  ap (λ (t : ℕ). a % t) (pow-succ' 2 k),
  pow-succ' 2 k,
)

-- A disjunction with a part that fits below the clear bits is a sum.
pub bit_or_high : (k q r : ℕ) → r < 2 ^ k → bit_or (q * 2 ^ k) r ≡ q * 2 ^ k + r
bit_or_high zero q r h = ground (arith, bit_or-zero q)
bit_or_high (suc k) q r h = omega (
  arith,
  bit_or_step (q * 2 ^ suc k) r,
  mul_pow_suc q k,
  pow-succ' 2 k,
  bit_or_high k q (r / 2) (omega (arith, pow-succ' 2 k)),
  ap (λ (t : ℕ). bit_or (t / 2) (r / 2)) (mul_pow_suc q k),
  ap (λ (t : ℕ). bit_or t (r / 2)) (half_double (q * 2 ^ k)),
)
