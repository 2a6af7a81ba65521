-- ===== src/Base/Bits.antt =====
-- Masks, shifts and disjoint unions of bits as arithmetic.
use Prim.Native.Nat.{
  ℕ, zero, suc, ◌+◌, ◌-◌, ◌*◌, ◌/◌, ◌%◌, ◌^◌, ◌≤◌, ◌<◌, min, max, bit_and, bit_or, digits,
  bit_and-bitwise, bit_or-bitwise,
}
use mathlib.Core.Path.{◌≡◌, refl, sym, ap, ◌∙◌}
use native.Mathlib.Nat.{pow-suc}
use native.Mathlib.Omega.{arith}

-- One digit of a bitwise operation: any two amounts of fuel that are enough give one result.
module _ (last : ℕ → ℕ) (op : ℕ → ℕ → ℕ) where
  no_digits : (fuel b : ℕ) → digits last op fuel zero b ≡ last b
  no_digits zero b = refl
  no_digits (suc fuel) b = refl

  enough_fuel :
      (a b fuel more : ℕ) → a ≤ fuel → a ≤ more → digits last op fuel a b ≡ digits last op more a b
  enough_fuel zero b fuel more _ _ = no_digits fuel b ∙ sym (no_digits more b)
  enough_fuel (suc a) b zero more low high = absurd (omega arith)
  enough_fuel (suc a) b (suc fuel) zero low high = absurd (omega arith)
  enough_fuel (suc a) b (suc fuel) (suc more) low high =
      omega (arith, enough_fuel (suc a / 2) (b / 2) fuel more (omega arith) (omega arith))

pub bit_and_step : (a b : ℕ) → bit_and a b ≡ bit_and (a / 2) (b / 2) * 2 + min (a % 2) (b % 2)
bit_and_step zero b = omega (arith, bit_and-bitwise 0 b, bit_and-bitwise 0 (b / 2))
bit_and_step (suc a) b = omega (
  arith,
  bit_and-bitwise (suc a) b,
  bit_and-bitwise (suc a / 2) (b / 2),
  enough_fuel (λ b. zero) min (suc a / 2) (b / 2) a (suc a / 2) (omega arith) (omega arith),
)

pub bit_or_step : (a b : ℕ) → bit_or a b ≡ bit_or (a / 2) (b / 2) * 2 + max (a % 2) (b % 2)
bit_or_step zero b = omega (arith, bit_or-bitwise 0 b, bit_or-bitwise 0 (b / 2))
bit_or_step (suc a) b = omega (
  arith,
  bit_or-bitwise (suc a) b,
  bit_or-bitwise (suc a / 2) (b / 2),
  enough_fuel (λ b. b) max (suc a / 2) (b / 2) a (suc a / 2) (omega arith) (omega arith),
)

and_zero_fuel : (n a : ℕ) → a ≤ n → bit_and a 0 ≡ 0
and_zero_fuel n zero h = refl
and_zero_fuel zero (suc a) h = absurd (omega arith)
and_zero_fuel (suc n) (suc a) h =
    omega (arith, bit_and_step (suc a) 0, and_zero_fuel n (suc a / 2) (omega arith))

bit_and-zero : (a : ℕ) → bit_and a 0 ≡ 0
bit_and-zero a = and_zero_fuel a a (omega arith)

or_zero_fuel : (n a : ℕ) → a ≤ n → bit_or a 0 ≡ a
or_zero_fuel n zero h = refl
or_zero_fuel zero (suc a) h = absurd (omega arith)
or_zero_fuel (suc n) (suc a) h =
    omega (arith, bit_or_step (suc a) 0, or_zero_fuel n (suc a / 2) (omega arith))

bit_or-zero : (a : ℕ) → bit_or a 0 ≡ a
bit_or-zero a = or_zero_fuel a a (omega arith)

-- A mask of k ones keeps the low k bits.
bit_and-1 : (a : ℕ) → bit_and a 1 ≡ a % 2
bit_and-1 a = omega (arith, bit_and_step a 1, bit_and-zero (a / 2))

bit_and-3 : (a : ℕ) → bit_and a 3 ≡ a % 4
bit_and-3 a = omega (arith, bit_and_step a 3, bit_and-1 (a / 2))

bit_and-7 : (a : ℕ) → bit_and a 7 ≡ a % 8
bit_and-7 a = omega (arith, bit_and_step a 7, bit_and-3 (a / 2))

bit_and-15 : (a : ℕ) → bit_and a 15 ≡ a % 16
bit_and-15 a = omega (arith, bit_and_step a 15, bit_and-7 (a / 2))

bit_and-31 : (a : ℕ) → bit_and a 31 ≡ a % 32
bit_and-31 a = omega (arith, bit_and_step a 31, bit_and-15 (a / 2))

bit_and-63 : (a : ℕ) → bit_and a 63 ≡ a % 64
bit_and-63 a = omega (arith, bit_and_step a 63, bit_and-31 (a / 2))

pub bit_and-127 : (a : ℕ) → bit_and a 127 ≡ a % 128
bit_and-127 a = omega (arith, bit_and_step a 127, bit_and-63 (a / 2))

pub bit_and-255 : (a : ℕ) → bit_and a 255 ≡ a % 256
bit_and-255 a = omega (arith, bit_and_step a 255, bit_and-127 (a / 2))

-- The same at the width that a bit buffer of the program has, 0 to 7 bits.
pub mask_low : (k a : ℕ) → k < 8 → bit_and a (2 ^ k - 1) ≡ a % 2 ^ k
mask_low zero a h = omega (arith, bit_and-zero a)
mask_low (suc zero) a h = bit_and-1 a
mask_low (suc (suc zero)) a h = bit_and-3 a
mask_low (suc (suc (suc zero))) a h = bit_and-7 a
mask_low (suc (suc (suc (suc zero)))) a h = bit_and-15 a
mask_low (suc (suc (suc (suc (suc zero))))) a h = bit_and-31 a
mask_low (suc (suc (suc (suc (suc (suc zero)))))) a h = bit_and-63 a
mask_low (suc (suc (suc (suc (suc (suc (suc zero))))))) a h = bit_and-127 a
mask_low (suc (suc (suc (suc (suc (suc (suc (suc k)))))))) a h = absurd (omega arith)

or_double : (x b : ℕ) → bit_or (x * 2) b ≡ bit_or x (b / 2) * 2 + b % 2
or_double x b =
    let half : x * 2 / 2 ≡ x = omega arith in
    let whole : bit_or (x * 2 / 2) (b / 2) ≡ bit_or x (b / 2) = ap (λ t. bit_or t (b / 2)) half in
    omega (arith, bit_or_step (x * 2) b, whole)

-- `(a << k) | b` for a `b` of k bits is a sum.
pub or_disjoint : (k a b : ℕ) → b < 2 ^ k → bit_or (a * 2 ^ k) b ≡ a * 2 ^ k + b
or_disjoint zero a b h =
    let b_zero : b ≡ 0 = omega arith in rw b_zero (bit_or-zero (a * 1) ∙ omega arith)
or_disjoint (suc k) a b h =
    let split : a * 2 ^ suc k ≡ a * 2 ^ k * 2 = rw pow-suc (omega arith) in
    rw split
      (omega (arith, or_double (a * 2 ^ k) b, or_disjoint k a (b / 2) (omega (arith, pow-suc 2 k))))
