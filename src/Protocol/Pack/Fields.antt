-- ===== src/Protocol/Pack/Fields.antt =====
-- The parts of a message that `pack` of dns_protocol.cpp writes, where `parse` meets them.
use dnss_cpp.Common.{
  ℕ, ◌+◌, ◌%◌, ◌^◌, ◌≤◌, ◌<◌, ◌≡◌, refl, ap, ◌∙◌, inl, inr, List, ◌++◌, length, arith,
  length-append, All, ok, ◌==◌, ◌||◌, true,
}
use dnss_cpp.Common.Bytes.{IsU16, IsU32}
use mathlib.Core.Path.{subst}
use native.Mathlib.Nat.{mod-eq_of_lt}
use dnss_cpp.Protocol.Buffer.Stands.{
  Stands, Stands-left, Stands-right, Stands-end, read_range-Stands,
}
use dnss_cpp.Protocol.Words.{write_u16, write_u32, read_u16, read_u32}
use dnss_cpp.Protocol.Words.ReadBack.{length-write_u16, read_u16-write_u16, read_u32-write_u32}
use dnss_cpp.Protocol.Name.{wire_to_name}
use dnss_cpp.Protocol.Name.Labels.{IsLabel, join, wire_labels}
use dnss_cpp.Protocol.Name.RoundTrip.{name_to_wire-join, wire_to_name-wire_labels}
use dnss_cpp.Protocol.Message.{DnsResourceRecord, type_ns, type_cname, type_ptr}
use dnss_cpp.Protocol.Message.WellFormed.{HoldsName, IsRdata, IsRr, plain, mail, authority, name}
use dnss_cpp.Protocol.Parse.{
  parse_question, name_rdata, mx_rdata, soa_remaining, soa_rdata, parse_rdata, parse_rr,
}
use dnss_cpp.Protocol.Pack.{rr_tail}

-- A name that stands somewhere, and where it ends.
pub wire_to_name-Stands :
    (buf : List ℕ) (p : ℕ) (ls : List (List ℕ))
    → All IsLabel ls
    → Stands buf p (wire_labels ls)
    → wire_to_name buf p ≡ ok (join ls, p + length (wire_labels ls))
wire_to_name-Stands buf p ls v s = wire_to_name-wire_labels buf p ls s.rest v s.inside s.here

-- Fields that stand one behind another; `q` is the position of the next.
pub two_words :
    (buf : List ℕ) (p q v : ℕ) (xs : List ℕ)
    → p + 2 ≡ q
    → IsU16 v
    → Stands buf p (write_u16 v ++ xs)
    → (read_u16 buf p ≡ ok v) × Stands buf q xs
unfolding write_u16
two_words buf p q v xs e h s = (
  read_u16-write_u16 buf p v h (Stands-left buf p (write_u16 v) xs s),
  subst (λ q. Stands buf q xs) e (Stands-right buf p (write_u16 v) xs s),
)

four_words :
    (buf : List ℕ) (p q v : ℕ) (xs : List ℕ)
    → p + 4 ≡ q
    → IsU32 v
    → Stands buf p (write_u32 v ++ xs)
    → (read_u32 buf p ≡ ok v) × Stands buf q xs
unfolding write_u32
four_words buf p q v xs e h s = (
  read_u32-write_u32 buf p v h (Stands-left buf p (write_u32 v) xs s),
  subst (λ q. Stands buf q xs) e (Stands-right buf p (write_u32 v) xs s),
)

module _ (ls : List (List ℕ)) (v : All IsLabel ls) (buf : List ℕ) (p qtype qclass : ℕ) where
  abbrev pub question_bytes : List ℕ
  question_bytes = wire_labels ls ++ (write_u16 qtype ++ write_u16 qclass)

  pub parse_question-bytes :
      IsU16 qtype
      → IsU16 qclass
      → Stands buf p question_bytes
      → parse_question buf p
        ≡ ok (record { qname = join ls; qtype = qtype; qclass = qclass }, p + length question_bytes)
  unfolding parse_question
  parse_question-bytes ht hc s =
      let after = Stands-right buf p (wire_labels ls) _ s in
      let (t, more) =
        two_words buf _ (p + length (wire_labels ls) + 2) qtype (write_u16 qclass) refl ht after in
      ground (
        arith,
        wire_to_name-Stands buf p ls v (Stands-left buf p (wire_labels ls) _ s),
        t,
        read_u16-write_u16 buf (p + length (wire_labels ls) + 2) qclass hc more,
        length-append (wire_labels ls) (write_u16 qtype ++ write_u16 qclass),
        length-append (write_u16 qtype) (write_u16 qclass),
        length-write_u16 qtype,
        length-write_u16 qclass,
        Stands-end buf p question_bytes s,
      )

-- The numbers of an SOA record are what its names leave.
remaining_twenty :
    (start rdlen np : ℕ)
    → start + rdlen ≡ np + 20
    → start ≤ np
    → rdlen < 2 ^ 16
    → soa_remaining start rdlen np ≡ 20
unfolding soa_remaining
remaining_twenty start rdlen np e k h = omega arith

three_tests :
    (type : ℕ)
    → HoldsName type
    → (type == type_cname || (type == type_ns || type == type_ptr)) ≡ true
three_tests type (inl e) = rw e
three_tests type (inr (inl e)) = rw e
three_tests type (inr (inr e)) = rw e

module _ (buf : List ℕ) (start : ℕ) where
  name_rdata-Stands :
      (ls : List (List ℕ))
      → All IsLabel ls
      → Stands buf start (wire_labels ls)
      → name_rdata buf start ≡ ok (wire_labels ls)
  unfolding name_rdata
  name_rdata-Stands ls v s = rw (wire_to_name-Stands buf start ls v s) (name_to_wire-join ls v)

  mx_rdata-Stands :
      (pref : ℕ) (ls : List (List ℕ)) (rdlen : ℕ)
      → IsU16 pref
      → All IsLabel ls
      → 2 ≤ rdlen
      → Stands buf start (write_u16 pref ++ wire_labels ls)
      → mx_rdata buf start rdlen ≡ ok (write_u16 pref ++ wire_labels ls)
  unfolding mx_rdata
  mx_rdata-Stands pref ls rdlen h v k s =
      let (e, more) = two_words buf start (start + 2) pref (wire_labels ls) refl h s in
      ground (arith, e, wire_to_name-Stands buf (start + 2) ls v more, name_to_wire-join ls v)

  soa_rdata-Stands :
      (ms rs : List (List ℕ)) (tail : List ℕ) (rdlen : ℕ)
      → All IsLabel ms
      → All IsLabel rs
      → length tail ≡ 20
      → rdlen ≡ length (wire_labels ms ++ (wire_labels rs ++ tail))
      → rdlen < 2 ^ 16
      → Stands buf start (wire_labels ms ++ (wire_labels rs ++ tail))
      → soa_rdata buf start rdlen ≡ ok (wire_labels ms ++ (wire_labels rs ++ tail))
  unfolding soa_rdata
  soa_rdata-Stands ms rs tail rdlen vm vr ht e h s =
      let mid = start + length (wire_labels ms) in
      let np = mid + length (wire_labels rs) in
      let second = Stands-right buf start (wire_labels ms) (wire_labels rs ++ tail) s in
      let third = Stands-right buf mid (wire_labels rs) tail second in
      ground (
        arith,
        wire_to_name-Stands buf start ms vm (Stands-left buf start (wire_labels ms) _ s),
        wire_to_name-Stands buf mid rs vr (Stands-left buf mid (wire_labels rs) tail second),
        remaining_twenty start rdlen np
            (omega (
              arith,
              e,
              ht,
              length-append (wire_labels ms) (wire_labels rs ++ tail),
              length-append (wire_labels rs) tail,
            ))
            (omega arith) h,
        name_to_wire-join ms vm,
        name_to_wire-join rs vr,
        rw ht at (read_range-Stands buf np tail third),
      )

  parse_rdata-Stands :
      (type : ℕ) (rdata : List ℕ)
      → IsRdata type rdata
      → IsU16 (length rdata)
      → Stands buf start rdata
      → parse_rdata buf type start (length rdata) ≡ ok rdata
  unfolding parse_rdata
  parse_rdata-Stands type rdata (plain a b c d e) h s =
      ground (arith, read_range-Stands buf start rdata s)
  parse_rdata-Stands type rdata (name ls k v e) h s =
      rw (three_tests type k, e) (name_rdata-Stands ls v (rw e at s))
  parse_rdata-Stands type rdata (mail pref ls t k v e) h s =
      rw (t, e)
        (mx_rdata-Stands pref ls _ k v
          (omega (arith, length-append (write_u16 pref) (wire_labels ls), length-write_u16 pref))
          (rw e at s))
  parse_rdata-Stands type rdata (authority ms rs tail t vm vr k e) h s =
      rw (t, e) (soa_rdata-Stands ms rs tail _ vm vr k refl (rw e at h) (rw e at s))

pub record Fields (buf : List ℕ) (q : ℕ) (rr : DnsResourceRecord) : Type 0 where
  at_type : read_u16 buf q ≡ ok rr.type
  at_class : read_u16 buf (q + 2) ≡ ok rr.rclass
  at_ttl : read_u32 buf (q + 4) ≡ ok rr.ttl
  at_size : read_u16 buf (q + 8) ≡ ok (length rr.rdata)
  at_rdata : parse_rdata buf rr.type (q + 10) (length rr.rdata) ≡ ok rr.rdata
  ends : q + 10 + length rr.rdata ≤ length buf

plus : (a b c d : ℕ) → b + c ≡ d → a + b + c ≡ a + d
plus a b c d e = omega arith

pub rr_tail-Fields :
    (buf : List ℕ) (q : ℕ) (rr : DnsResourceRecord)
    → IsRr rr
    → Stands buf q (rr_tail rr)
    → Fields buf q rr
rr_tail-Fields buf q rr v s =
    let size = length rr.rdata in
    let (t, after_type) = two_words buf q (q + 2) rr.type _ refl v.type_fits s in
    let (c, after_class) =
      two_words buf (q + 2) (q + 4) rr.rclass _ (omega arith) v.class_fits after_type in
    let (l, after_ttl) =
      four_words buf (q + 4) (q + 8) rr.ttl _ (omega arith) v.ttl_fits after_class in
    let (n, after_size) =
      two_words buf (q + 8) (q + 10) (size % 2 ^ 16) _ (omega arith) (omega arith) after_ttl in
    record {
      at_type = t;
      at_class = c;
      at_ttl = l;
      at_size = n ∙ ap ok (mod-eq_of_lt v.size_fits);
      at_rdata = parse_rdata-Stands buf (q + 10) rr.type rr.rdata v.contents v.size_fits after_size;
      ends = Stands-end buf (q + 10) rr.rdata after_size;
    }

pub parse_rr-Fields :
    (buf : List ℕ) (p q : ℕ) (rr : DnsResourceRecord)
    → wire_to_name buf p ≡ ok (rr.name, q)
    → Fields buf q rr
    → parse_rr buf p ≡ ok (rr, q + 10 + length rr.rdata)
unfolding parse_rr
parse_rr-Fields buf p q rr e f = ground arith
