-- ===== src/Cache/Policy/Cacheable.antt =====
-- Which replies are cached: `shouldCache` of caching_resolver.cpp.
use dnss_cpp.Common.{ℕ, ◌≡◌, refl, ◌↔◌, ◌⊎◌, true, false, List, [], ◌∷◌, arith}
use dnss_cpp.Common.Text.{text_eq_iff}
use dnss_cpp.Protocol.Header.{qr, opcode, tc, rcode}
use dnss_cpp.Protocol.Message.{DnsMessage, DnsQuestion, no_error, serv_fail, nx_domain, refused}
use dnss_cpp.Cache.Policy.{is_empty, repeats, cacheable_rcode, should_cache}

-- The one question of a reply is the question asked, whatever its class.
abbrev pub Repeats : DnsQuestion → List DnsQuestion → Type 0
Repeats q qs = (r : DnsQuestion) × (qs ≡ r ∷ []) × (r.qname ≡ q.qname) × (r.qtype ≡ q.qtype)

-- A failure, or a success that has an answer or an authority.
abbrev pub Tells : DnsMessage → ℕ → Type 0
Tells reply code =
    ((code ≡ nx_domain) ⊎ ((code ≡ serv_fail) ⊎ (code ≡ refused)))
    ⊎ ((code ≡ no_error)
        × ((is_empty reply.answers ≡ false) ⊎ (is_empty reply.authorities ≡ false)))

abbrev pub Cacheable : DnsQuestion → DnsMessage → Type 0
Cacheable q reply =
    (qr reply.header ≡ true)
    × (opcode reply.header ≡ 0)
    × (tc reply.header ≡ false)
    × Repeats q reply.questions
    × Tells reply (rcode reply.header)

repeats_iff : (q : DnsQuestion) (qs : List DnsQuestion) → (repeats q qs ≡ true) ↔ Repeats q qs
unfolding repeats
repeats_iff q [] = ((λ h. absurd (ground arith)), (λ (r, e, n, t). absurd (ground arith)))
repeats_iff q (r ∷ []) = (
  (λ h. (r, refl, (text_eq_iff r.qname q.qname).0 (ground arith), ground arith)),
  (λ (r', e, n, t). ground (arith, text_eq_iff r.qname q.qname)),
)
repeats_iff q (r ∷ s ∷ rest) =
    ((λ h. absurd (ground arith)), (λ (r', e, n, t). absurd (ground arith)))

cacheable_rcode_iff :
    (reply : DnsMessage) (code : ℕ) → (cacheable_rcode reply code ≡ true) ↔ Tells reply code
unfolding cacheable_rcode
cacheable_rcode_iff reply code = ground arith

-- A reply may be cached exactly if it is a response to a query, is not truncated, has one question, of
-- the name and the type that were asked, and is NXDOMAIN, SERVFAIL or REFUSED, or a success with an
-- answer or an authority.
pub should_cache_iff :
    (q : DnsQuestion) (reply : DnsMessage) → (should_cache q reply ≡ true) ↔ Cacheable q reply
unfolding should_cache
should_cache_iff q reply =
    let r = repeats_iff q reply.questions in
    let c = cacheable_rcode_iff reply (rcode reply.header) in
    (
      (λ h. (ground arith, ground arith, ground arith, r.0 (ground arith), c.0 (ground arith))),
      (λ (a, b, t, s, u). let r1 = r.1 s in let c1 = c.1 u in ground arith),
    )
