-- ===== src/Protocol/Parse.antt =====
-- `DnsMessage::parse` of dns_protocol.cpp. A loop's body is a function from the pointer `p` to an
-- entry and the pointer behind it.
pub mod Safety
use dnss_cpp.Common.{
  ℕ, zero, suc, ◌+◌, ◌-◌, ◌%◌, ◌^◌, ◌||◌, List, [], ◌∷◌, ◌++◌, ltb, ◌==◌, if◌then◌else◌, length,
  Result, ok, truncated_header, truncated_question, truncated_rr, truncated_rdlen, truncated_mx,
  truncated_soa, ◌>>=◌, ◌>>◌, throw_if,
}
use dnss_cpp.Protocol.Buffer.{read_range}
use dnss_cpp.Protocol.Header.{DnsHeader}
use dnss_cpp.Protocol.Name.{wire_to_name, name_to_wire}
use dnss_cpp.Protocol.Words.{read_u16, read_u32, write_u16}
use dnss_cpp.Protocol.Message.{
  DnsQuestion, DnsResourceRecord, DnsMessage, type_ns, type_cname, type_soa, type_ptr, type_mx,
}

-- The body of the loop over the questions, and the position behind the question.
unfoldable pub parse_question : List ℕ → ℕ → Result (DnsQuestion × ℕ)
parse_question buf p = do
  (name, q) ← wire_to_name buf p
  throw_if (ltb (length buf) (q + 4)) truncated_question
  qtype ← read_u16 buf q
  qclass ← read_u16 buf (q + 2)
  ok (record { qname = name; qtype = qtype; qclass = qclass }, q + 4)

-- The cases of `switch (rr.type)`; `start` is `rdStart`.
unfoldable pub name_rdata : List ℕ → ℕ → Result (List ℕ)
name_rdata buf start = do (name, np) ← wire_to_name buf start; name_to_wire name

unfoldable pub mx_rdata : List ℕ → ℕ → ℕ → Result (List ℕ)
mx_rdata buf start rdlen = do
  throw_if (ltb rdlen 2) truncated_mx
  pref ← read_u16 buf start
  (name, np) ← wire_to_name buf (start + 2)
  wire ← name_to_wire name
  ok (write_u16 pref ++ wire)

-- `size_t remaining = rdlen - (np - rdStart)` wraps round below zero.
unfoldable pub soa_remaining : ℕ → ℕ → ℕ → ℕ
soa_remaining start rdlen np = (rdlen + 2 ^ 64 - (np - start)) % 2 ^ 64

unfoldable pub soa_rdata : List ℕ → ℕ → ℕ → Result (List ℕ)
soa_rdata buf start rdlen = do
  (mname, mid) ← wire_to_name buf start
  (rname, np) ← wire_to_name buf mid
  throw_if (ltb (soa_remaining start rdlen np) 20) truncated_soa
  wire_mname ← name_to_wire mname
  wire_rname ← name_to_wire rname
  tail ← read_range buf np 20
  ok (wire_mname ++ (wire_rname ++ tail))

unfoldable pub parse_rdata : List ℕ → ℕ → ℕ → ℕ → Result (List ℕ)
parse_rdata buf type start rdlen =
    if type == type_cname || (type == type_ns || type == type_ptr)
    then name_rdata buf start
    else if type == type_mx
    then mx_rdata buf start rdlen
    else if type == type_soa
    then soa_rdata buf start rdlen
    else read_range buf start rdlen

-- The body of the loop over a section of resource records; the three loops are the same.
unfoldable pub parse_rr : List ℕ → ℕ → Result (DnsResourceRecord × ℕ)
parse_rr buf p = do
  (name, q) ← wire_to_name buf p
  throw_if (ltb (length buf) (q + 10)) truncated_rr
  type ← read_u16 buf q
  rclass ← read_u16 buf (q + 2)
  ttl ← read_u32 buf (q + 4)
  rdlen ← read_u16 buf (q + 8)
  throw_if (ltb (length buf) (q + 10 + rdlen)) truncated_rdlen
  rdata ← parse_rdata buf type (q + 10) rdlen
  ok (
    record { name = name; type = type; rclass = rclass; ttl = ttl; rdata = rdata },
    q + 10 + rdlen,
  )

-- `for (int i = 0; i < count; ++i)` over entries that stand one behind another.
module _ {A : Type 0} (entry : List ℕ → ℕ → Result (A × ℕ)) where
  unfoldable pub parse_entries : ℕ → List ℕ → ℕ → Result (List A × ℕ)
  parse_entries zero buf p = ok ([], p)
  parse_entries (suc count) buf p = do
    (x, q) ← entry buf p
    (xs, r) ← parse_entries count buf q
    ok (x ∷ xs, r)

unfoldable pub parse_header : List ℕ → Result DnsHeader
parse_header buf = do
  id ← read_u16 buf 0
  flags ← read_u16 buf 2
  qdcount ← read_u16 buf 4
  ancount ← read_u16 buf 6
  nscount ← read_u16 buf 8
  arcount ← read_u16 buf 10
  ok (record {
    id = id;
    flags = flags;
    qdcount = qdcount;
    ancount = ancount;
    nscount = nscount;
    arcount = arcount;
  })

unfoldable pub parse : List ℕ → Result DnsMessage
parse buf = do
  throw_if (ltb (length buf) 12) truncated_header
  h ← parse_header buf
  (questions, p) ← parse_entries parse_question h.qdcount buf 12
  (answers, q) ← parse_entries parse_rr h.ancount buf p
  (authorities, r) ← parse_entries parse_rr h.nscount buf q
  (additionals, t) ← parse_entries parse_rr h.arcount buf r
  ok (record {
    header = h;
    questions = questions;
    answers = answers;
    authorities = authorities;
    additionals = additionals;
  })
