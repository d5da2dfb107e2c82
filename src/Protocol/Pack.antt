-- ===== src/Protocol/Pack.antt =====
-- `DnsMessage::pack` of dns_protocol.cpp.
pub mod Sizes
pub mod Fields
pub mod RoundTrip
pub mod Safety
use dnss_cpp.Common.{ℕ, ◌+◌, ◌%◌, ◌^◌, List, [], ◌∷◌, ◌++◌, length, Result, ok, ◌>>=◌}
use dnss_cpp.Protocol.Name.{name_to_wire}
use dnss_cpp.Protocol.Words.{write_u16, write_u32}
use dnss_cpp.Protocol.Message.{DnsQuestion, DnsResourceRecord, DnsMessage}

unfoldable pub pack_question : DnsQuestion → Result (List ℕ)
pack_question q = do
  wire ← name_to_wire q.qname
  ok (wire ++ (write_u16 q.qtype ++ write_u16 q.qclass))

-- The fixed fields of a record, behind its name.
abbrev pub rr_tail : DnsResourceRecord → List ℕ
rr_tail rr =
    write_u16 rr.type
    ++ (write_u16 rr.rclass
        ++ (write_u32 rr.ttl ++ (write_u16 (length rr.rdata % 2 ^ 16) ++ rr.rdata)))

unfoldable pub pack_rr : DnsResourceRecord → Result (List ℕ)
pack_rr rr = do wire ← name_to_wire rr.name; ok (wire ++ rr_tail rr)

-- A loop that writes the entries one behind another.
module _ {A : Type 0} (entry : A → Result (List ℕ)) where
  unfoldable pub pack_entries : List A → Result (List ℕ)
  pack_entries [] = ok []
  pack_entries (x ∷ xs) = do bytes ← entry x; rest ← pack_entries xs; ok (bytes ++ rest)

-- The first loops of `pack`, which add up the size of the buffer.
unfoldable pub question_size : DnsQuestion → Result ℕ
question_size q = do wire ← name_to_wire q.qname; ok (length wire + 4)

unfoldable pub rr_size : DnsResourceRecord → Result ℕ
rr_size rr = do wire ← name_to_wire rr.name; ok (length wire + 10 + length rr.rdata)

module _ {A : Type 0} (size : A → Result ℕ) where
  unfoldable pub add_sizes : ℕ → List A → Result ℕ
  add_sizes total [] = ok total
  add_sizes total (x ∷ xs) = do n ← size x; add_sizes (total + n) xs

unfoldable pub packed_size : DnsMessage → Result ℕ
packed_size m = do
  a ← add_sizes question_size 12 m.questions
  b ← add_sizes rr_size a m.answers
  c ← add_sizes rr_size b m.authorities
  add_sizes rr_size c m.additionals

unfoldable pub pack_header : DnsMessage → List ℕ
pack_header m =
    write_u16 m.header.id
    ++ (write_u16 m.header.flags
        ++ (write_u16 (length m.questions % 2 ^ 16)
            ++ (write_u16 (length m.answers % 2 ^ 16)
                ++ (write_u16 (length m.authorities % 2 ^ 16)
                    ++ write_u16 (length m.additionals % 2 ^ 16)))))

-- The bytes that `p` passes over, in order; `size` is computed first, as the buffer's length.
unfoldable pub pack : DnsMessage → Result (List ℕ)
pack m = do
  size ← packed_size m
  questions ← pack_entries pack_question m.questions
  answers ← pack_entries pack_rr m.answers
  authorities ← pack_entries pack_rr m.authorities
  additionals ← pack_entries pack_rr m.additionals
  ok (pack_header m ++ (questions ++ (answers ++ (authorities ++ additionals))))
