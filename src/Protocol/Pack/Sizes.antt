-- ===== src/Protocol/Pack/Sizes.antt =====
-- The buffer that `pack` of dns_protocol.cpp allocates is the one that it fills.
use dnss_cpp.Common.{
  ℕ, ◌+◌, ◌≡◌, refl, List, [], ◌∷◌, ◌++◌, length, arith, length-append, Result, ok, >>=-eq-ok,
}
use dnss_cpp.Protocol.Words.{write_u16, write_u32}
use dnss_cpp.Protocol.Words.ReadBack.{length-write_u16}
use dnss_cpp.Protocol.Name.{name_to_wire}
use dnss_cpp.Protocol.Message.{DnsQuestion, DnsResourceRecord, DnsMessage}
use dnss_cpp.Protocol.Pack.{
  rr_tail, pack_question, pack_rr, pack_entries, question_size, rr_size, add_sizes, packed_size,
  pack_header, pack,
}

pub length-rr_tail : (rr : DnsResourceRecord) → length (rr_tail rr) ≡ 10 + length rr.rdata
unfolding write_u16 write_u32
length-rr_tail rr = omega arith

question_size-pack :
    (q : DnsQuestion) (bytes : List ℕ)
    → pack_question q ≡ ok bytes
    → question_size q ≡ ok (length bytes)
unfolding pack_question question_size
question_size-pack q bytes e =
    let (wire, w, r) = >>=-eq-ok (name_to_wire q.qname) _ e in
    ground (
      arith,
      w,
      r,
      length-append wire (write_u16 q.qtype ++ write_u16 q.qclass),
      length-append (write_u16 q.qtype) (write_u16 q.qclass),
      length-write_u16 q.qtype,
      length-write_u16 q.qclass,
    )

rr_size-pack :
    (rr : DnsResourceRecord) (bytes : List ℕ)
    → pack_rr rr ≡ ok bytes
    → rr_size rr ≡ ok (length bytes)
unfolding pack_rr rr_size
rr_size-pack rr bytes e =
    let (wire, w, r) = >>=-eq-ok (name_to_wire rr.name) _ e in
    ground (arith, w, r, length-append wire (rr_tail rr), length-rr_tail rr)

module _ {A : Type 0} (write : A → Result (List ℕ)) (size : A → Result ℕ) where
  add_sizes-pack_entries :
      ((x : A) (bytes : List ℕ) → write x ≡ ok bytes → size x ≡ ok (length bytes))
      → (total : ℕ) (xs : List A) (bytes : List ℕ) → pack_entries write xs ≡ ok bytes
      → add_sizes size total xs ≡ ok (total + length bytes)
  unfolding pack_entries add_sizes
  add_sizes-pack_entries h total [] bytes e = ground (arith, e)
  add_sizes-pack_entries h total (x ∷ xs) bytes e =
      let (first, w, r) = >>=-eq-ok (write x) _ e in
      let (rest, ws, r') = >>=-eq-ok (pack_entries write xs) _ r in
      ground (
        arith,
        h x first w,
        r',
        length-append first rest,
        add_sizes-pack_entries h (total + length first) xs rest ws,
      )

module _ (m : DnsMessage) (qs an ns ar : List ℕ) where
  abbrev pub Sections : Type 0
  Sections =
      (pack_entries pack_question m.questions ≡ ok qs)
      × (pack_entries pack_rr m.answers ≡ ok an)
      × (pack_entries pack_rr m.authorities ≡ ok ns)
      × (pack_entries pack_rr m.additionals ≡ ok ar)

  packed_size-Sections :
      Sections → packed_size m ≡ ok (12 + length qs + length an + length ns + length ar)
  unfolding packed_size
  packed_size-Sections (a, b, c, d) = ground (
    arith,
    add_sizes-pack_entries pack_question question_size question_size-pack 12 m.questions qs a,
    add_sizes-pack_entries pack_rr rr_size rr_size-pack (12 + length qs) m.answers an b,
    add_sizes-pack_entries pack_rr rr_size rr_size-pack (12 + length qs + length an) m.authorities
        ns c,
    add_sizes-pack_entries pack_rr rr_size rr_size-pack (12 + length qs + length an + length ns)
        m.additionals ar d,
  )

  pub pack-Sections : Sections → pack m ≡ ok (pack_header m ++ (qs ++ (an ++ (ns ++ ar))))
  unfolding pack
  pack-Sections (a, b, c, d) = ground (arith, packed_size-Sections (a, b, c, d))

pub length-pack_header : (m : DnsMessage) → length (pack_header m) ≡ 12
unfolding pack_header write_u16
length-pack_header m = refl

-- When `pack` returns, what it writes is exactly as long as the buffer that its first loops sized.
pub packed_size-pack :
    (m : DnsMessage) (buf : List ℕ) → pack m ≡ ok buf → packed_size m ≡ ok (length buf)
unfolding pack
packed_size-pack m buf e =
    let (size, es, r) = >>=-eq-ok (packed_size m) _ e in
    let (qs, a, r1) = >>=-eq-ok (pack_entries pack_question m.questions) _ r in
    let (an, b, r2) = >>=-eq-ok (pack_entries pack_rr m.answers) _ r1 in
    let (ns, c, r3) = >>=-eq-ok (pack_entries pack_rr m.authorities) _ r2 in
    let (ar, d, r4) = >>=-eq-ok (pack_entries pack_rr m.additionals) _ r3 in
    ground (
      arith,
      r4,
      packed_size-Sections m qs an ns ar (a, b, c, d),
      length-pack_header m,
      length-append (pack_header m) (qs ++ (an ++ (ns ++ ar))),
      length-append qs (an ++ (ns ++ ar)),
      length-append an (ns ++ ar),
      length-append ns ar,
    )
