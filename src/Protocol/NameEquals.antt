-- ===== src/Protocol/NameEquals.antt =====
-- `nameEquals` of dns_protocol.hpp, with and without SSE4.2. A `char` is signed, so a byte from 128
-- on is negative and lies outside 'A'..'Z', as it does when it is compared as a number.
pub mod Agree
use dnss_cpp.Common.{
  ℕ, zero, suc, ◌/◌, max, min, Bool, true, false, not, ◌&&◌, List, [], ◌∷◌, map, ◌==◌, leb,
  if◌then◌else◌, length, take, drop, bit_and, bit_or, bit_xor,
}

-- `if (ca >= 'A' && ca <= 'Z') ca |= 0x20;`
unfoldable pub fold_case : ℕ → ℕ
fold_case c = if leb b'A' c && leb c b'Z' then bit_or c 0x20 else c

unfoldable pub ci_eq : ℕ → ℕ → Bool
unfolding fold_case
ci_eq ca cb = if ca == cb then true else fold_case ca == fold_case cb

-- The loop over the bytes, for texts of one length.
unfoldable pub bytes_equal : List ℕ → List ℕ → Bool
bytes_equal [] b = true
bytes_equal (x ∷ a) [] = true
bytes_equal (x ∷ a) (y ∷ b) = ci_eq x y && bytes_equal a b

unfoldable pub name_equals : List ℕ → List ℕ → Bool
name_equals a b = if length a == length b then bytes_equal a b else false

-- A register of 16 lanes is a list of bytes, and an instruction works lane by lane.
abbrev pub lanes : (ℕ → ℕ → ℕ) → List ℕ → List ℕ → List ℕ
lanes f [] ys = []
lanes f (x ∷ xs) [] = []
lanes f (x ∷ xs) (y ∷ ys) = f x y ∷ lanes f xs ys

-- A comparison sets all bits of a lane or none.
abbrev pub all_ones : Bool → ℕ
all_ones true = 0xFF
all_ones false = 0

-- `_mm_testz_si128(v, v)`, and `_mm_movemask_epi8(v) == 0xFFFF`.
abbrev pub all_zero : List ℕ → Bool
all_zero [] = true
all_zero (x ∷ xs) = (x == 0) && all_zero xs

abbrev pub all_marked : List ℕ → Bool
all_marked [] = true
all_marked (x ∷ xs) = leb 0x80 x && all_marked xs

-- `ge_a`, `le_z` and `exact` of a lane.
abbrev pub at_least_a : ℕ → ℕ
at_least_a low = all_ones (max low b'a' == low)

abbrev pub at_most_z : ℕ → ℕ
at_most_z low = all_ones (min low b'z' == low)

abbrev pub is_exact : ℕ → ℕ
is_exact diff = all_ones (diff == 0)

-- The body of the loop: `true` goes on, `false` returns false.
unfoldable pub chunk_equal : List ℕ → List ℕ → Bool
chunk_equal va vb =
    let diff = lanes bit_xor va vb in
    let low_va = map (λ x. bit_or x 0x20) va in
    let letter = lanes bit_and (map at_least_a low_va) (map at_most_z low_va) in
    if all_zero diff
    then true
    else if all_zero (map (λ d. bit_and d 0xDF) diff)
    then all_marked (lanes bit_or (map is_exact diff) letter)
    else false

-- Chunks of 16 bytes, as many as are full, and then the bytes that are left.
unfoldable pub chunks_equal : ℕ → List ℕ → List ℕ → Bool
chunks_equal zero a b = bytes_equal a b
chunks_equal (suc n) a b =
    chunk_equal (take 16 a) (take 16 b) && chunks_equal n (drop 16 a) (drop 16 b)

unfoldable pub name_equals_simd : List ℕ → List ℕ → Bool
name_equals_simd a b = if length a == length b then chunks_equal (length a / 16) a b else false
