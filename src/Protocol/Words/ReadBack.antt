-- ===== src/Protocol/Words/ReadBack.antt =====
-- `readU16` and `readU32` on what `writeU16` and `writeU32` wrote, and on any bytes.
use dnss_cpp.Common.{
  ℕ, ◌+◌, ◌*◌, ◌/◌, ◌%◌, ◌^◌, ◌≤◌, ◌≡◌, refl, List, [], ◌∷◌, length, arith, ok, bit_or,
}
use dnss_cpp.Common.Bytes.{IsByte, IsU16, IsU32}
use dnss_cpp.Common.Bits.{bit_or-shifted, bit_and-low_byte}
use dnss_cpp.Protocol.Buffer.{read, read_below}
use dnss_cpp.Protocol.Buffer.Stands.{Stands, Stands-right, read-Stands}
use dnss_cpp.Protocol.Words.{read_u16, read_u32, write_u16, write_u32}

pub length-write_u16 : (v : ℕ) → length (write_u16 v) ≡ 2
unfolding write_u16
length-write_u16 v = refl

pub length-write_u32 : (v : ℕ) → length (write_u32 v) ≡ 4
unfolding write_u32
length-write_u32 v = refl

-- Four bytes with the shifts of `readU32`.
four_bytes :
    (a b c d : ℕ)
    → IsByte a
    → IsByte b
    → IsByte c
    → IsByte d
    → bit_or (bit_or (bit_or (a * 2 ^ 24) (b * 2 ^ 16)) (c * 2 ^ 8)) d
      ≡ a * 2 ^ 24 + b * 2 ^ 16 + c * 2 ^ 8 + d
four_bytes a b c d ha hb hc hd =
    rw
      (
        bit_or-shifted 24 a (b * 2 ^ 16) (omega arith),
        sixteen,
        bit_or-shifted 16 (a * 256 + b) (c * 2 ^ 8) (omega arith),
        eight,
        bit_or-shifted 8 (a * 65536 + b * 256 + c) d (omega arith),
      )
      (omega arith)
  where
    sixteen : a * 2 ^ 24 + b * 2 ^ 16 ≡ (a * 256 + b) * 2 ^ 16
    sixteen = omega arith

    eight : (a * 256 + b) * 2 ^ 16 + c * 2 ^ 8 ≡ (a * 65536 + b * 256 + c) * 2 ^ 8
    eight = omega arith

u32_value :
    (v : ℕ)
    → IsU32 v
    → v / 2 ^ 24 % 256 * 2 ^ 24 + v / 2 ^ 16 % 256 * 2 ^ 16 + v / 2 ^ 8 % 256 * 2 ^ 8 + v % 256 ≡ v
u32_value v h = omega arith

module _ (buf : List ℕ) (p : ℕ) where
  read_second : (x y : ℕ) (xs : List ℕ) → Stands buf p (x ∷ y ∷ xs) → read buf (p + 1) ≡ ok y
  read_second x y xs s = read-Stands buf (p + 1) y xs (Stands-right buf p (x ∷ []) (y ∷ xs) s)

  pub read_u16-write_u16 : (v : ℕ) → IsU16 v → Stands buf p (write_u16 v) → read_u16 buf p ≡ ok v
  unfolding read_u16 write_u16
  read_u16-write_u16 v h s = ground (
    arith,
    read-Stands buf p _ _ s,
    read_second _ _ _ s,
    bit_and-low_byte (v / 256),
    bit_and-low_byte v,
    bit_or-shifted 8 (v / 256) (v % 256),
  )

  pub read_u32-write_u32 : (v : ℕ) → IsU32 v → Stands buf p (write_u32 v) → read_u32 buf p ≡ ok v
  unfolding read_u32 write_u32
  read_u32-write_u32 v h s = ground (
    arith,
    read-Stands buf p _ _ s,
    read_second _ _ _ s,
    read-Stands buf (p + 2) _ _ (Stands-right buf p (_ ∷ _ ∷ []) (_ ∷ _ ∷ []) s),
    read-Stands buf (p + 3) _ _ (Stands-right buf p (_ ∷ _ ∷ _ ∷ []) (_ ∷ []) s),
    bit_and-low_byte (v / 2 ^ 24),
    bit_and-low_byte (v / 2 ^ 16),
    bit_and-low_byte (v / 2 ^ 8),
    bit_and-low_byte v,
    four_bytes (v / 2 ^ 24 % 256) (v / 2 ^ 16 % 256) (v / 2 ^ 8 % 256) (v % 256) (omega arith)
        (omega arith) (omega arith) (omega arith),
    u32_value v h,
  )

-- Two bytes below the end are a number.
pub read_u16_below : (buf : List ℕ) (p : ℕ) → p + 2 ≤ length buf → (v : ℕ) × (read_u16 buf p ≡ ok v)
unfolding read_u16
read_u16_below buf p h =
    let (a, e) = read_below buf p (omega arith) in
    let (b, f) = read_below buf (p + 1) (omega arith) in
    (bit_or (a * 2 ^ 8) b, ground (arith, e, f))

pub read_u32_below : (buf : List ℕ) (p : ℕ) → p + 4 ≤ length buf → (v : ℕ) × (read_u32 buf p ≡ ok v)
unfolding read_u32
read_u32_below buf p h =
    let (a, e) = read_below buf p (omega arith) in
    let (b, f) = read_below buf (p + 1) (omega arith) in
    let (c, g) = read_below buf (p + 2) (omega arith) in
    let (d, k) = read_below buf (p + 3) (omega arith) in
    (bit_or (bit_or (bit_or (a * 2 ^ 24) (b * 2 ^ 16)) (c * 2 ^ 8)) d, ground (arith, e, f, g, k))
