-- ===== src/Common/Bits.antt =====
-- `|` of fields that do not overlap, and `&` with a mask of low bits, at every width.
use Prim.Native.Nat.{
  ℕ, zero, suc, ◌+◌, ◌*◌, ◌/◌, ◌%◌, ◌^◌, ◌≤◌, ◌<◌, min, max, bit_and, bit_or, digits,
  bit_and-bitwise, bit_or-bitwise,
}
use mathlib.Core.Path.{◌≡◌, refl, ap}
use native.Mathlib.Omega.{arith}
use native.Mathlib.Nat.{pow-suc}

-- The digit recursion of a bit operation has fuel; any that reaches the number will do.
module _ (base : ℕ → ℕ) (op : ℕ → ℕ → ℕ) where
  enough_digits :
      (fuel more a b : ℕ) → a ≤ fuel → a ≤ more → digits base op fuel a b ≡ digits base op more a b
  enough_digits zero zero a b h k = refl
  enough_digits zero (suc more) zero b h k = refl
  enough_digits zero (suc more) (suc a) b h k = elim h [ ]
  enough_digits (suc fuel) zero zero b h k = refl
  enough_digits (suc fuel) zero (suc a) b h k = elim k [ ]
  enough_digits (suc fuel) (suc more) zero b h k = refl
  enough_digits (suc fuel) (suc more) (suc a) b h k =
      ap (λ (t : ℕ). t * 2 + op (suc a % 2) (b % 2))
        (enough_digits fuel more (suc a / 2) (b / 2) (omega arith) (omega arith))

-- The lowest bit of each operation, and the rest of it.
bit_or-halves : (a b : ℕ) → bit_or a b ≡ bit_or (a / 2) (b / 2) * 2 + max (a % 2) (b % 2)
bit_or-halves zero b = omega (arith, bit_or-bitwise 0 b, bit_or-bitwise 0 (b / 2))
bit_or-halves (suc a) b = omega (
  arith,
  bit_or-bitwise (suc a) b,
  bit_or-bitwise (suc a / 2) (b / 2),
  enough_digits (λ y. y) max a (suc a / 2) (suc a / 2) (b / 2) (omega arith) (omega arith),
)

bit_and-halves : (a b : ℕ) → bit_and a b ≡ bit_and (a / 2) (b / 2) * 2 + min (a % 2) (b % 2)
bit_and-halves zero b = omega (arith, bit_and-bitwise 0 b, bit_and-bitwise 0 (b / 2))
bit_and-halves (suc a) b = omega (
  arith,
  bit_and-bitwise (suc a) b,
  bit_and-bitwise (suc a / 2) (b / 2),
  enough_digits (λ y. 0) min a (suc a / 2) (suc a / 2) (b / 2) (omega arith) (omega arith),
)

or_nothing : (fuel a : ℕ) → a ≤ fuel → bit_or a 0 ≡ a
or_nothing fuel zero h = refl
or_nothing zero (suc a) h = elim h [ ]
or_nothing (suc fuel) (suc a) h =
    omega (arith, bit_or-halves (suc a) 0, or_nothing fuel (suc a / 2) (omega arith))

below_one : (low : ℕ) → low < 1 → low ≡ 0
below_one low h = omega arith

twice_power : (a k : ℕ) → a * 2 ^ suc k ≡ 2 * (a * 2 ^ k)
twice_power a k = omega (arith, ap (λ (t : ℕ). a * t) (pow-suc 2 k))

half_power : (a k : ℕ) → a * 2 ^ suc k / 2 ≡ a * 2 ^ k
half_power a k = omega (arith, twice_power a k)

-- `high << k | low`, where `low` has `k` bits, is a sum.
pub bit_or-shifted : (k high low : ℕ) → low < 2 ^ k → bit_or (high * 2 ^ k) low ≡ high * 2 ^ k + low
bit_or-shifted zero high low h = omega (
  arith,
  or_nothing (high * 1) (high * 1) (omega arith),
  ap (bit_or (high * 1)) (below_one low h),
)
bit_or-shifted (suc k) high low h = omega (
  arith,
  bit_or-halves (high * 2 ^ suc k) low,
  twice_power high k,
  ap (λ (t : ℕ). bit_or t (low / 2)) (half_power high k),
  bit_or-shifted k high (low / 2) (omega (arith, h, pow-suc 2 k)),
)

and_nothing : (fuel a : ℕ) → a ≤ fuel → bit_and a 0 ≡ 0
and_nothing fuel zero h = refl
and_nothing zero (suc a) h = elim h [ ]
and_nothing (suc fuel) (suc a) h =
    omega (arith, bit_and-halves (suc a) 0, and_nothing fuel (suc a / 2) (omega arith))

ones : (a m : ℕ) → bit_and a (2 * m + 1) ≡ bit_and (a / 2) m * 2 + a % 2
ones a m = omega (arith, bit_and-halves a (2 * m + 1), ap (bit_and (a / 2)) (half m))
  where
    half : (m : ℕ) → (2 * m + 1) / 2 ≡ m
    half m = omega arith

-- `v & 0x0F` and `v & 0xFF`.
pub bit_and-low_nibble : (v : ℕ) → bit_and v 0x0F ≡ v % 16
bit_and-low_nibble v = omega (
  arith,
  ones v 7,
  ones (v / 2) 3,
  ones (v / 2 / 2) 1,
  ones (v / 2 / 2 / 2) 0,
  and_nothing v (v / 2 / 2 / 2 / 2) (omega arith),
)

pub bit_and-low_byte : (v : ℕ) → bit_and v 0xFF ≡ v % 256
bit_and-low_byte v = omega (
  arith,
  ones v 127,
  ones (v / 2) 63,
  ones (v / 2 / 2) 31,
  ones (v / 2 / 2 / 2) 15,
  bit_and-low_nibble (v / 2 / 2 / 2 / 2),
)
