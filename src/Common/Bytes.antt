-- ===== src/Common/Bytes.antt =====
-- Bytes: facts about masks and shifts on 8 and 16 bits, checked over all values by evaluation.
use Prim.Native.Nat.{ℕ, zero, suc, ◌+◌, ◌*◌, ◌<◌, bit_and, bit_or}
use mathlib.Core.Path.{◌≡◌, refl}
use mathlib.Core.Bool.{Bool, true, ◌&&◌}
use native.Mathlib.Omega.{arith}
use dnss_cpp.Common.Tests.{◌==◌, ==_iff}

abbrev pub IsByte : ℕ → Type 0
IsByte b = b < 256

abbrev pub IsU16 : ℕ → Type 0
IsU16 v = v < 65536

abbrev pub IsU32 : ℕ → Type 0
IsU32 v = v < 4294967296

-- A test over every number below a bound, and over every pair of bytes.
unfoldable pub holds_below : ℕ → (ℕ → Bool) → Bool
holds_below zero test = true
holds_below (suc n) test = test n && holds_below n test

pub holds_below_at :
    (n : ℕ) (test : ℕ → Bool) (x : ℕ) → holds_below n test ≡ true → x < n → test x ≡ true
unfolding holds_below
holds_below_at zero test x h lt = absurd (omega arith)
holds_below_at (suc n) test x h lt = ground (arith, holds_below_at n test x)

unfoldable pub holds_bytes : (ℕ → ℕ → Bool) → Bool
unfolding holds_below
holds_bytes test = holds_below 256 (λ a. holds_below 256 (test a))

pub holds_bytes_at :
    (test : ℕ → ℕ → Bool) (a b : ℕ)
    → holds_bytes test ≡ true
    → IsByte a
    → IsByte b
    → test a b ≡ true
unfolding holds_bytes
holds_bytes_at test a b h ha hb =
    holds_below_at 256 (test a) b (holds_below_at 256 (λ a. holds_below 256 (test a)) a h ha) hb

-- `(a << 8) | b` on bytes.
pub bit_or_bytes : (a b : ℕ) → IsByte a → IsByte b → bit_or (a * 256) b ≡ a * 256 + b
unfolding holds_bytes
bit_or_bytes a b ha hb =
    (==_iff _ _).0 (holds_bytes_at (λ a b. bit_or (a * 256) b == a * 256 + b) a b refl ha hb)

-- `v & 0xFF` on 16 bits.
low_byte_pair : (a b : ℕ) → IsByte a → IsByte b → bit_and (a * 256 + b) 255 ≡ b
unfolding holds_bytes
low_byte_pair a b ha hb =
    (==_iff _ _).0 (holds_bytes_at (λ a b. bit_and (a * 256 + b) 255 == b) a b refl ha hb)
