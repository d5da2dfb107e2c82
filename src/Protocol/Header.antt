-- ===== src/Protocol/Header.antt =====
-- DnsHeader of dns_protocol.hpp: the flag word. `flags` is a uint16_t, `~m` is written out on 16
-- bits, and a `bool` that is shifted is 0 or 1.
use dnss_cpp.Common.{ℕ, ◌*◌, ◌/◌, ◌^◌, Bool, true, false, not, ◌==◌, bit_and, bit_or}

pub record DnsHeader : Type 0 where
  pub id : ℕ
  pub flags : ℕ
  pub qdcount : ℕ
  pub ancount : ℕ
  pub nscount : ℕ
  pub arcount : ℕ

-- `(flags >> k) & 1`, taken for a `bool`.
unfoldable pub flag_bit : ℕ → ℕ → Bool
flag_bit k flags = not (bit_and (flags / 2 ^ k) 1 == 0)

unfoldable pub qr : DnsHeader → Bool
unfolding flag_bit
qr h = flag_bit 15 h.flags

unfoldable pub opcode : DnsHeader → ℕ
opcode h = bit_and (h.flags / 2 ^ 11) 0xF

unfoldable pub aa : DnsHeader → Bool
unfolding flag_bit
aa h = flag_bit 10 h.flags

unfoldable pub tc : DnsHeader → Bool
unfolding flag_bit
tc h = flag_bit 9 h.flags

unfoldable pub rd : DnsHeader → Bool
unfolding flag_bit
rd h = flag_bit 8 h.flags

unfoldable pub ra : DnsHeader → Bool
unfolding flag_bit
ra h = flag_bit 7 h.flags

unfoldable pub rcode : DnsHeader → ℕ
rcode h = bit_and h.flags 0xF

abbrev pub bit_of : Bool → ℕ
bit_of true = 1
bit_of false = 0

unfoldable pub set_qr : Bool → DnsHeader → DnsHeader
set_qr v h = record h { flags = bit_or (bit_and h.flags 0x7FFF) (bit_of v * 2 ^ 15) }

unfoldable pub set_opcode : ℕ → DnsHeader → DnsHeader
set_opcode v h = record h { flags = bit_or (bit_and h.flags 0x87FF) (bit_and v 0xF * 2 ^ 11) }

unfoldable pub set_aa : Bool → DnsHeader → DnsHeader
set_aa v h = record h { flags = bit_or (bit_and h.flags 0xFBFF) (bit_of v * 2 ^ 10) }

unfoldable pub set_tc : Bool → DnsHeader → DnsHeader
set_tc v h = record h { flags = bit_or (bit_and h.flags 0xFDFF) (bit_of v * 2 ^ 9) }

unfoldable pub set_rd : Bool → DnsHeader → DnsHeader
set_rd v h = record h { flags = bit_or (bit_and h.flags 0xFEFF) (bit_of v * 2 ^ 8) }

unfoldable pub set_ra : Bool → DnsHeader → DnsHeader
set_ra v h = record h { flags = bit_or (bit_and h.flags 0xFF7F) (bit_of v * 2 ^ 7) }

unfoldable pub set_rcode : ℕ → DnsHeader → DnsHeader
set_rcode v h = record h { flags = bit_or (bit_and h.flags 0xFFF0) (bit_and v 0xF) }

-- `header{}`
abbrev pub zero_header : DnsHeader
zero_header = record { id = 0; flags = 0; qdcount = 0; ancount = 0; nscount = 0; arcount = 0 }
