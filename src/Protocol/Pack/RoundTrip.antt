-- ===== src/Protocol/Pack/RoundTrip.antt =====
-- `parse` of dns_protocol.cpp reads back what `pack` wrote.
use dnss_cpp.Common.{
  ℕ, ◌+◌, ◌%◌, ◌^◌, ◌≤◌, ◌≡◌, refl, sym, ap, ◌∙◌, List, [], ◌∷◌, ◌++◌, length, arith, length-append,
  All, Result, ok,
}
use dnss_cpp.Common.Bytes.{IsU16}
use mathlib.Core.Path.{subst}
use dnss_cpp.Protocol.Buffer.Stands.{Stands, Stands-left, Stands-right, Stands-whole}
use dnss_cpp.Protocol.Words.{write_u16}
use dnss_cpp.Protocol.Words.ReadBack.{read_u16-write_u16}
use dnss_cpp.Protocol.Name.Labels.{wire_labels}
use dnss_cpp.Protocol.Name.RoundTrip.{name_to_wire-join}
use dnss_cpp.Protocol.Header.{DnsHeader}
use dnss_cpp.Protocol.Message.{DnsQuestion, DnsResourceRecord, DnsMessage}
use dnss_cpp.Protocol.Message.WellFormed.{IsQuestion, IsRr, IsMessage}
use dnss_cpp.Protocol.Parse.{parse_question, parse_rr, parse_entries, parse_header, parse}
use dnss_cpp.Protocol.Pack.{rr_tail, pack_question, pack_rr, pack_entries, pack_header, pack}
use dnss_cpp.Protocol.Pack.Sizes.{pack-Sections, length-pack_header, length-rr_tail}
use dnss_cpp.Protocol.Pack.Fields.{
  rr_tail-Fields, parse_rr-Fields, question_bytes, parse_question-bytes, wire_to_name-Stands,
  two_words,
}

-- What is written for `x` is read back as `x` wherever it stands, up to its end.
abbrev Reread {ℓ} :
    {A : Type ℓ} → (A → Result (List ℕ)) → (List ℕ → ℕ → Result (A × ℕ)) → A → Type ℓ
Reread write entry x =
    (bytes : List ℕ) × (write x ≡ ok bytes)
    × ((buf : List ℕ) (p : ℕ) → Stands buf p bytes → entry buf p ≡ ok (x, p + length bytes))

question-Reread : (q : DnsQuestion) → IsQuestion q → Reread pack_question parse_question q
unfolding pack_question
question-Reread q v =
    let (ls, vl, e) = v.named in
    (
      wire_labels ls ++ (write_u16 q.qtype ++ write_u16 q.qclass),
      rw (e, name_to_wire-join ls vl),
      λ buf p s.
          parse_question-bytes ls vl buf p q.qtype q.qclass v.type_fits v.class_fits s
          ∙ ap
              (λ n. ok (
                record { qname = n; qtype = q.qtype; qclass = q.qclass },
                p + length (question_bytes ls vl buf p q.qtype q.qclass),
              ))
              (sym e),
    )

rr-Reread : (rr : DnsResourceRecord) → IsRr rr → Reread pack_rr parse_rr rr
unfolding pack_rr
rr-Reread rr v =
    let (ls, vl, e) = v.named in
    (
      wire_labels ls ++ rr_tail rr,
      rw (e, name_to_wire-join ls vl),
      λ buf p s.
          let named =
            wire_to_name-Stands buf p ls vl (Stands-left buf p (wire_labels ls) (rr_tail rr) s) in
          let q = p + length (wire_labels ls) in
          parse_rr-Fields buf p q rr (named ∙ ap (λ n. ok (n, q)) (sym e))
            (rr_tail-Fields buf q rr v (Stands-right buf p (wire_labels ls) (rr_tail rr) s))
          ∙ ap (λ n. ok (rr, n))
              (omega (arith, length-append (wire_labels ls) (rr_tail rr), length-rr_tail rr)),
    )

module _ {A : Type 0} (write : A → Result (List ℕ)) (entry : List ℕ → ℕ → Result (A × ℕ)) where
  entries-Reread :
      (xs : List A)
      → All (Reread write entry) xs
      → Reread (pack_entries write) (parse_entries entry (length xs)) xs
  unfolding pack_entries parse_entries
  entries-Reread [] h = ([], refl, λ buf p s. ap (λ (n : ℕ). ok ([], n)) (omega arith))
  entries-Reread (x ∷ xs) ((bytes, w, r), hs) =
      let (more, ws, rs) = entries-Reread xs hs in
      (
        bytes ++ more,
        ground (arith, w, ws),
        λ buf p s. ground (
          arith,
          r buf p (Stands-left buf p bytes more s),
          rs buf (p + length bytes) (Stands-right buf p bytes more s),
          length-append bytes more,
        ),
      )

questions-Reread :
    (qs : List DnsQuestion) → All IsQuestion qs → All (Reread pack_question parse_question) qs
questions-Reread [] v = tt
questions-Reread (q ∷ qs) (v, vs) = (question-Reread q v, questions-Reread qs vs)

rrs-Reread : (rrs : List DnsResourceRecord) → All IsRr rrs → All (Reread pack_rr parse_rr) rrs
rrs-Reread [] v = tt
rrs-Reread (rr ∷ rrs) (v, vs) = (rr-Reread rr v, rrs-Reread rrs vs)

header_words :
    (buf : List ℕ) (h : DnsHeader) (a b c d : ℕ)
    → IsU16 h.id
    → IsU16 h.flags
    → IsU16 a
    → IsU16 b
    → IsU16 c
    → IsU16 d
    → h.qdcount ≡ a
    → h.ancount ≡ b
    → h.nscount ≡ c
    → h.arcount ≡ d
    → Stands buf 0 (
        write_u16 h.id
        ++ (write_u16 h.flags ++ (write_u16 a ++ (write_u16 b ++ (write_u16 c ++ write_u16 d)))))
    → parse_header buf ≡ ok h
unfolding parse_header
header_words buf h a b c d hi hf ha hb hc hd ea eb ec ed s =
    let (i, s2) = two_words buf 0 2 h.id _ refl hi s in
    let (f, s4) = two_words buf 2 4 h.flags _ refl hf s2 in
    let (q, s6) = two_words buf 4 6 a _ refl ha s4 in
    let (n, s8) = two_words buf 6 8 b _ refl hb s6 in
    let (t, s10) = two_words buf 8 10 c _ refl hc s8 in
    ground (arith, read_u16-write_u16 buf 10 d hd s10)

parse_header-pack_header :
    (m : DnsMessage) (buf : List ℕ)
    → IsMessage m
    → Stands buf 0 (pack_header m)
    → parse_header buf ≡ ok m.header
unfolding pack_header
parse_header-pack_header m buf v s =
    header_words buf m.header _ _ _ _ v.id_fits v.flags_fit (omega arith) (omega arith)
      (omega arith) (omega arith) (counted v.qdcount v.questions_fit)
      (counted v.ancount v.answers_fit) (counted v.nscount v.authorities_fit)
      (counted v.arcount v.additionals_fit) s
  where
    counted : {n k : ℕ} → n ≡ k → IsU16 k → n ≡ k % 2 ^ 16
    counted e h = omega arith

-- The parts that `parse` reads one behind the other.
parse_parts :
    (buf : List ℕ) (m : DnsMessage) (p q r t : ℕ)
    → 12 ≤ length buf
    → parse_header buf ≡ ok m.header
    → parse_entries parse_question m.header.qdcount buf 12 ≡ ok (m.questions, p)
    → parse_entries parse_rr m.header.ancount buf p ≡ ok (m.answers, q)
    → parse_entries parse_rr m.header.nscount buf q ≡ ok (m.authorities, r)
    → parse_entries parse_rr m.header.arcount buf r ≡ ok (m.additionals, t)
    → parse buf ≡ ok m
unfolding parse
parse_parts buf m p q r t h e eq ea en er = ground arith

-- A section whose count stands in the header.
section :
    {A : Type 0} (entry : List ℕ → ℕ → Result (A × ℕ)) (buf : List ℕ) (p q : ℕ) (xs : List A)
    {n : ℕ}
    → n ≡ length xs
    → parse_entries entry (length xs) buf p ≡ ok (xs, q)
    → parse_entries entry n buf p ≡ ok (xs, q)
section entry buf p q xs e h = rw e h

-- How a section is read back from its bytes.
abbrev ReadsBack : {A : Type 0} → (List ℕ → ℕ → Result (A × ℕ)) → List A → List ℕ → Type 0
ReadsBack entry xs bytes =
    (buf : List ℕ) (p : ℕ)
    → Stands buf p bytes
    → parse_entries entry (length xs) buf p ≡ ok (xs, p + length bytes)

parse_sections :
    (m : DnsMessage) (qs an ns ar : List ℕ)
    → IsMessage m
    → ReadsBack parse_question m.questions qs
    → ReadsBack parse_rr m.answers an
    → ReadsBack parse_rr m.authorities ns
    → ReadsBack parse_rr m.additionals ar
    → parse (pack_header m ++ (qs ++ (an ++ (ns ++ ar)))) ≡ ok m
parse_sections m qs an ns ar v rq ra rn rr =
    parse_parts buf m p1 p2 p3 (p3 + length ar)
      (omega
        (arith, length-append (pack_header m) (qs ++ (an ++ (ns ++ ar))), length-pack_header m))
      (parse_header-pack_header m buf v (Stands-left buf 0 (pack_header m) _ (Stands-whole buf)))
      (section parse_question buf 12 p1 m.questions v.qdcount
        (rq buf 12 (Stands-left buf 12 qs _ s0)))
      (section parse_rr buf p1 p2 m.answers v.ancount (ra buf p1 (Stands-left buf p1 an _ s1)))
      (section parse_rr buf p2 p3 m.authorities v.nscount (rn buf p2 (Stands-left buf p2 ns _ s2)))
      (section parse_rr buf p3 _ m.additionals v.arcount (rr buf p3 (Stands-right buf p2 ns ar s2)))
  where
    buf : List ℕ
    buf = pack_header m ++ (qs ++ (an ++ (ns ++ ar)))

    p1 : ℕ
    p1 = 12 + length qs

    p2 : ℕ
    p2 = p1 + length an

    p3 : ℕ
    p3 = p2 + length ns

    s0 : Stands buf 12 (qs ++ (an ++ (ns ++ ar)))
    s0 =
        subst (λ p. Stands buf p (qs ++ (an ++ (ns ++ ar)))) (omega (arith, length-pack_header m))
          (Stands-right buf 0 (pack_header m) _ (Stands-whole buf))

    s1 : Stands buf p1 (an ++ (ns ++ ar))
    s1 = Stands-right buf 12 qs _ s0

    s2 : Stands buf p2 (ns ++ ar)
    s2 = Stands-right buf p1 an _ s1

-- A well-formed message is packed, and what is packed parses to the message itself. Well-formed are
-- names of labels of 1 to 63 bytes without dots, numbers that fit their fields, counts in the header
-- that are the sizes of the sections, and record data in the uncompressed form that `parse` stores.
pub parse-pack :
    (m : DnsMessage) → IsMessage m → (buf : List ℕ) × (pack m ≡ ok buf) × (parse buf ≡ ok m)
parse-pack m v =
    let (qs, a, ra) =
      entries-Reread pack_question parse_question m.questions
        (questions-Reread m.questions v.questions) in
    let (an, b, rb) = entries-Reread pack_rr parse_rr m.answers (rrs-Reread m.answers v.answers) in
    let (ns, c, rc) =
      entries-Reread pack_rr parse_rr m.authorities (rrs-Reread m.authorities v.authorities) in
    let (ar, d, rd) =
      entries-Reread pack_rr parse_rr m.additionals (rrs-Reread m.additionals v.additionals) in
    (
      pack_header m ++ (qs ++ (an ++ (ns ++ ar))),
      pack-Sections m qs an ns ar (a, b, c, d),
      parse_sections m qs an ns ar v ra rb rc rd,
    )
