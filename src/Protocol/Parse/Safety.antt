-- ===== src/Protocol/Parse/Safety.antt =====
-- `DnsMessage::parse` of dns_protocol.cpp on any bytes: it ends, and where it reads out of bounds.
use dnss_cpp.Common.{
  ℕ, zero, suc, ◌+◌, ◌-◌, ◌^◌, ◌≤◌, ◌<◌, ◌≡◌, ◌≢◌, ltb, List, length, arith, Result, ok,
  out_of_bounds, Answers, Ends, Answers-Ends, Ends->>=, Ends-throw_if, Ensures->>=, Ensures-mono,
  Ensures-ok, Ensures-Answers, Bool-cases, inl, inr,
}
use dnss_cpp.Protocol.Buffer.{read, read_range, read_range_below}
use dnss_cpp.Protocol.Words.{read_u16, read_u32}
use dnss_cpp.Protocol.Words.ReadBack.{read_u16_below}
use dnss_cpp.Protocol.Name.{wire_to_name, name_to_wire}
use dnss_cpp.Protocol.Name.Bounds.{Placed, wire_to_name-Placed}
use dnss_cpp.Protocol.Name.Emit.{name_to_wire-size}
use dnss_cpp.Protocol.Message.{type_soa}
use dnss_cpp.Protocol.Parse.{
  parse_question, name_rdata, mx_rdata, soa_remaining, soa_rdata, parse_rdata, parse_rr,
  parse_entries, parse_header, parse,
}

name_to_wire-Answers : (name : List ℕ) → Answers (name_to_wire name)
name_to_wire-Answers name =
    Ensures-mono (λ wire. length wire ≤ length name + 2) (λ _. Unit {0}) (name_to_wire name)
      (λ _ _. tt) (name_to_wire-size name)

name_rdata-Answers : (buf : List ℕ) (start : ℕ) → Answers (name_rdata buf start)
unfolding name_rdata
name_rdata-Answers buf start =
    Ensures->>= (Placed buf start) _ (wire_to_name buf start) _ (wire_to_name-Placed buf start)
      (λ (name, np) _. name_to_wire-Answers name)

mx_rdata-Answers :
    (buf : List ℕ) (start rdlen : ℕ)
    → start + rdlen ≤ length buf
    → Answers (mx_rdata buf start rdlen)
unfolding mx_rdata
mx_rdata-Answers buf start rdlen h = elim (Bool-cases (ltb rdlen 2)) [
  | inl short ↦ rw short tt
  | inr long ↦
      let (pref, e) = read_u16_below buf start (ground arith) in
      rw (long, e)
        (Ensures->>= (Placed buf (start + 2)) _ (wire_to_name buf (start + 2)) _
          (wire_to_name-Placed buf (start + 2))
          (λ (name, np) _.
            Ensures->>= (λ _. Unit {0}) _ (name_to_wire name) _ (name_to_wire-Answers name)
              (λ _ _. tt)))
]

-- For every type but SOA, the data of a record that fits the message is stored or rejected with no
-- read outside the message, and the loops on the names in it end.
pub parse_rdata-Answers :
    (buf : List ℕ) (type start rdlen : ℕ)
    → start + rdlen ≤ length buf
    → type ≢ type_soa
    → Answers (parse_rdata buf type start rdlen)
unfolding parse_rdata
parse_rdata-Answers buf type start rdlen h other = ground (
  arith,
  name_rdata-Answers buf start,
  mx_rdata-Answers buf start rdlen h,
  read_range_below buf start rdlen h,
)

remaining_inside :
    (start rdlen np : ℕ)
    → rdlen < 2 ^ 16
    → start ≤ np
    → np ≤ start + rdlen
    → soa_remaining start rdlen np ≡ start + rdlen - np
unfolding soa_remaining
remaining_inside start rdlen np h k l = omega arith

remaining_wraps :
    (start rdlen np : ℕ)
    → np - start < 2 ^ 63
    → start + rdlen < np
    → 20 ≤ soa_remaining start rdlen np
unfolding soa_remaining
remaining_wraps start rdlen np h k = omega arith

-- Two names that are read one behind the other.
read_names :
    (buf : List ℕ) (start mid np : ℕ) (mname rname : List ℕ)
    → wire_to_name buf start ≡ ok (mname, mid)
    → wire_to_name buf mid ≡ ok (rname, np)
    → (start < np) × (np ≤ length buf)
read_names buf start mid np mname rname em er =
    let first =
      Ensures-ok (Placed buf start) (wire_to_name buf start) (wire_to_name-Placed buf start) em in
    let second =
      Ensures-ok (Placed buf mid) (wire_to_name buf mid) (wire_to_name-Placed buf mid) er in
    (omega arith, omega arith)

-- An SOA record that fits the message, of a length of 16 bits, and whose two names are read and end
-- within its data, is stored or rejected with no read outside the message.
pub soa_rdata-Answers :
    (buf : List ℕ) (start rdlen mid np : ℕ) (mname rname : List ℕ)
    → rdlen < 2 ^ 16
    → start + rdlen ≤ length buf
    → wire_to_name buf start ≡ ok (mname, mid)
    → wire_to_name buf mid ≡ ok (rname, np)
    → np ≤ start + rdlen
    → Answers (soa_rdata buf start rdlen)
unfolding soa_rdata
soa_rdata-Answers buf start rdlen mid np mname rname u fits em er inside =
    let (a, b) = read_names buf start mid np mname rname em er in
    ground (
      arith,
      name_to_wire-Answers mname,
      name_to_wire-Answers rname,
      remaining_inside start rdlen np u (omega arith) inside,
      read_range_below buf np 20,
    )

-- If the two names of an SOA record are read and written, and run past the data of the record, then
-- the check of what remains passes, since its subtraction wraps round; the copy of 20 bytes from
-- behind the names is then a read out of bounds if the message ends less than 20 bytes behind them.
pub soa_rdata_overread :
    (buf : List ℕ) (start rdlen mid np : ℕ) (mname rname wm wr : List ℕ)
    → length buf < 2 ^ 63
    → wire_to_name buf start ≡ ok (mname, mid)
    → wire_to_name buf mid ≡ ok (rname, np)
    → name_to_wire mname ≡ ok wm
    → name_to_wire rname ≡ ok wr
    → start + rdlen < np
    → length buf < np + 20
    → soa_rdata buf start rdlen ≡ out_of_bounds
unfolding soa_rdata read_range
soa_rdata_overread buf start rdlen mid np mname rname wm wr u em er ew ex past short =
    let (a, b) = read_names buf start mid np mname rname em er in
    ground (arith, remaining_wraps start rdlen np (omega arith) past)

wire_to_name-Ends : (buf : List ℕ) (p : ℕ) → Ends (wire_to_name buf p)
wire_to_name-Ends buf p =
    Answers-Ends _ (Ensures-Answers (Placed buf p) _ (wire_to_name-Placed buf p))

name_to_wire-Ends : (name : List ℕ) → Ends (name_to_wire name)
name_to_wire-Ends name = Answers-Ends _ (name_to_wire-Answers name)

read-Ends : (buf : List ℕ) (p : ℕ) → Ends (read buf p)
unfolding read
read-Ends buf p = ground arith

read_range-Ends : (buf : List ℕ) (p n : ℕ) → Ends (read_range buf p n)
unfolding read_range
read_range-Ends buf p n = ground arith

read_u16-Ends : (buf : List ℕ) (p : ℕ) → Ends (read_u16 buf p)
unfolding read_u16
read_u16-Ends buf p =
    Ends->>= _ _ (read-Ends buf p) λ a. Ends->>= _ _ (read-Ends buf (p + 1)) λ b. tt

read_u32-Ends : (buf : List ℕ) (p : ℕ) → Ends (read_u32 buf p)
unfolding read_u32
read_u32-Ends buf p = Ends->>= _ _ (read-Ends buf p) λ a.
    Ends->>= _ _ (read-Ends buf (p + 1))
      λ b. Ends->>= _ _ (read-Ends buf (p + 2)) λ c. Ends->>= _ _ (read-Ends buf (p + 3)) λ d. tt

parse_question-Ends : (buf : List ℕ) (p : ℕ) → Ends (parse_question buf p)
unfolding parse_question
parse_question-Ends buf p = Ends->>= _ _ (wire_to_name-Ends buf p) λ (name, q).
    Ends->>= _ _ (Ends-throw_if _ _) λ _.
      Ends->>= _ _ (read_u16-Ends buf q)
        λ qtype. Ends->>= _ _ (read_u16-Ends buf (q + 2)) λ qclass. tt

soa_rdata-Ends : (buf : List ℕ) (start rdlen : ℕ) → Ends (soa_rdata buf start rdlen)
unfolding soa_rdata
soa_rdata-Ends buf start rdlen = Ends->>= _ _ (wire_to_name-Ends buf start) λ (mname, mid).
    Ends->>= _ _ (wire_to_name-Ends buf mid) λ (rname, np). Ends->>= _ _ (Ends-throw_if _ _) λ _.
      Ends->>= _ _ (name_to_wire-Ends mname) λ wm.
        Ends->>= _ _ (name_to_wire-Ends rname)
          λ wr. Ends->>= _ _ (read_range-Ends buf np 20) λ tail. tt

mx_rdata-Ends : (buf : List ℕ) (start rdlen : ℕ) → Ends (mx_rdata buf start rdlen)
unfolding mx_rdata
mx_rdata-Ends buf start rdlen = Ends->>= _ _ (Ends-throw_if _ _) λ _.
    Ends->>= _ _ (read_u16-Ends buf start) λ pref.
      Ends->>= _ _ (wire_to_name-Ends buf (start + 2))
        λ (name, np). Ends->>= _ _ (name_to_wire-Ends name) λ wire. tt

parse_rdata-Ends : (buf : List ℕ) (type start rdlen : ℕ) → Ends (parse_rdata buf type start rdlen)
unfolding parse_rdata
parse_rdata-Ends buf type start rdlen = ground (
  arith,
  Answers-Ends (name_rdata buf start) (name_rdata-Answers buf start),
  mx_rdata-Ends buf start rdlen,
  soa_rdata-Ends buf start rdlen,
  read_range-Ends buf start rdlen,
)

parse_rr-Ends : (buf : List ℕ) (p : ℕ) → Ends (parse_rr buf p)
unfolding parse_rr
parse_rr-Ends buf p = Ends->>= _ _ (wire_to_name-Ends buf p) λ (name, q).
    Ends->>= _ _ (Ends-throw_if _ _) λ _. Ends->>= _ _ (read_u16-Ends buf q) λ type.
      Ends->>= _ _ (read_u16-Ends buf (q + 2)) λ rclass.
        Ends->>= _ _ (read_u32-Ends buf (q + 4)) λ ttl.
          Ends->>= _ _ (read_u16-Ends buf (q + 8)) λ rdlen.
            Ends->>= _ _ (Ends-throw_if _ _)
              λ _. Ends->>= _ _ (parse_rdata-Ends buf type (q + 10) rdlen) λ rdata. tt

module _ {A : Type 0} (entry : List ℕ → ℕ → Result (A × ℕ)) where
  parse_entries-Ends :
      ((buf : List ℕ) (p : ℕ) → Ends (entry buf p))
      → (count : ℕ) (buf : List ℕ) (p : ℕ) → Ends (parse_entries entry count buf p)
  unfolding parse_entries
  parse_entries-Ends h zero buf p = tt
  parse_entries-Ends h (suc count) buf p =
      Ends->>= _ _ (h buf p) λ (x, q). Ends->>= _ _ (parse_entries-Ends h count buf q) λ (xs, r). tt

parse_header-Ends : (buf : List ℕ) → Ends (parse_header buf)
unfolding parse_header
parse_header-Ends buf = Ends->>= _ _ (read_u16-Ends buf 0) λ a.
    Ends->>= _ _ (read_u16-Ends buf 2) λ b. Ends->>= _ _ (read_u16-Ends buf 4) λ c.
      Ends->>= _ _ (read_u16-Ends buf 6)
        λ d. Ends->>= _ _ (read_u16-Ends buf 8) λ e. Ends->>= _ _ (read_u16-Ends buf 10) λ f. tt

-- `parse` ends on every input, also where compression pointers form a cycle.
pub parse-Ends : (buf : List ℕ) → Ends (parse buf)
unfolding parse
parse-Ends buf = Ends->>= _ _ (Ends-throw_if _ _) λ _. Ends->>= _ _ (parse_header-Ends buf) λ h.
    Ends->>= _ _ (parse_entries-Ends parse_question parse_question-Ends h.qdcount buf 12) λ (qs, p).
      Ends->>= _ _ (parse_entries-Ends parse_rr parse_rr-Ends h.ancount buf p) λ (an, q).
        Ends->>= _ _ (parse_entries-Ends parse_rr parse_rr-Ends h.nscount buf q) λ (ns, r).
          Ends->>= _ _ (parse_entries-Ends parse_rr parse_rr-Ends h.arcount buf r) λ (ar, t). tt
