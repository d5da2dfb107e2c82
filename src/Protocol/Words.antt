-- ===== src/Protocol/Words.antt =====
-- 16 and 32 bit numbers on the wire, high byte first: `readU16` to `writeU32` of dns_protocol.cpp.
pub mod ReadBack
use dnss_cpp.Common.{ℕ, ◌+◌, ◌*◌, ◌/◌, ◌^◌, List, [], ◌∷◌, bit_and, bit_or, Result, ok, ◌>>=◌}
use dnss_cpp.Protocol.Buffer.{read}

unfoldable pub read_u16 : List ℕ → ℕ → Result ℕ
read_u16 buf p = do a ← read buf p; b ← read buf (p + 1); ok (bit_or (a * 2 ^ 8) b)

unfoldable pub read_u32 : List ℕ → ℕ → Result ℕ
read_u32 buf p = do
  a ← read buf p
  b ← read buf (p + 1)
  c ← read buf (p + 2)
  d ← read buf (p + 3)
  ok (bit_or (bit_or (bit_or (a * 2 ^ 24) (b * 2 ^ 16)) (c * 2 ^ 8)) d)

unfoldable pub write_u16 : ℕ → List ℕ
write_u16 v = bit_and (v / 2 ^ 8) 0xFF ∷ bit_and v 0xFF ∷ []

unfoldable pub write_u32 : ℕ → List ℕ
write_u32 v =
    bit_and (v / 2 ^ 24) 0xFF
    ∷ bit_and (v / 2 ^ 16) 0xFF
    ∷ bit_and (v / 2 ^ 8) 0xFF
    ∷ bit_and v 0xFF
    ∷ []
