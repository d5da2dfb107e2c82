-- ===== src/Cache/Policy.antt =====
-- What is cached and for how long: `shouldCache`, `computeCacheTTL`, `clobberTTL`,
-- `buildCachedReply`, `isExpired` and `needsRefresh` of caching_resolver.cpp.
pub mod Ttl
pub mod Cacheable
use dnss_cpp.Common.{
  ℕ, ◌+◌, ◌-◌, ◌*◌, ◌/◌, ◌%◌, ◌^◌, Bool, true, false, not, ◌&&◌, ◌||◌, List, [], ◌∷◌, map, ltb, leb,
  ◌==◌, if◌then◌else◌, length,
}
use dnss_cpp.Common.Text.{text_eq}
use dnss_cpp.Protocol.Header.{DnsHeader, qr, opcode, tc, rcode}
use dnss_cpp.Protocol.Message.{
  DnsQuestion, DnsResourceRecord, DnsMessage, no_error, serv_fail, nx_domain, refused, create_reply,
}
use dnss_cpp.Cache.{CacheEntry, Settings, max_ttl, second}

unfoldable pub is_empty {ℓ} : {A : Type ℓ} → List A → Bool
is_empty [] = true
is_empty (x ∷ xs) = false

-- `reply.questions.size() == 1`, and the question has the name and the type that were asked.
unfoldable pub repeats : DnsQuestion → List DnsQuestion → Bool
repeats q [] = false
repeats q (r ∷ []) = text_eq r.qname q.qname && (r.qtype == q.qtype)
repeats q (r ∷ s ∷ rest) = false

unfoldable pub cacheable_rcode : DnsMessage → ℕ → Bool
cacheable_rcode reply code =
    if code == nx_domain
    then true
    else if code == serv_fail
    then true
    else if code == refused
    then true
    else if not (code == no_error)
    then false
    else if not (is_empty reply.answers)
    then true
    else not (is_empty reply.authorities)

unfoldable pub should_cache : DnsQuestion → DnsMessage → Bool
should_cache question reply =
    if not (qr reply.header)
    then false
    else if not (opcode reply.header == 0)
    then false
    else if tc reply.header
    then false
    else if not (repeats question reply.questions)
    then false
    else cacheable_rcode reply (rcode reply.header)

-- One section of the loop over all records: `min_ttl`.
unfoldable pub least_ttl : ℕ → List DnsResourceRecord → ℕ
least_ttl least [] = least
least_ttl least (rr ∷ rrs) = least_ttl (if ltb rr.ttl least then rr.ttl else least) rrs

unfoldable pub has_rr : DnsMessage → Bool
has_rr m =
    not (is_empty m.answers) || (not (is_empty m.authorities) || not (is_empty m.additionals))

unfoldable pub compute_cache_ttl : Settings → DnsMessage → ℕ
compute_cache_ttl s reply =
    let least =
      least_ttl (least_ttl (least_ttl max_ttl reply.answers) reply.authorities) reply.additionals in
    let ttl = if has_rr reply then least else s.min_ttl in
    let raised = if ltb ttl s.min_ttl then s.min_ttl else ttl in
    if ltb max_ttl raised then max_ttl else raised

abbrev pub with_ttl : ℕ → DnsResourceRecord → DnsResourceRecord
with_ttl ttl rr = record rr { ttl = ttl }

-- The seconds are cast to `uint32_t`.
unfoldable pub clobber_ttl : ℕ → DnsMessage → DnsMessage
clobber_ttl ttl m = record m {
  answers = map (with_ttl (ttl % 2 ^ 32)) m.answers;
  authorities = map (with_ttl (ttl % 2 ^ 32)) m.authorities;
  additionals = map (with_ttl (ttl % 2 ^ 32)) m.additionals;
}

unfoldable pub build_cached_reply : DnsMessage → DnsMessage → DnsMessage
build_cached_reply req cached =
    let reply = create_reply req in
    record reply {
      header = record (reply.header) {
        ancount = length cached.answers % 2 ^ 16;
        nscount = length cached.authorities % 2 ^ 16;
        arcount = length cached.additionals % 2 ^ 16;
      };
      answers = cached.answers;
      authorities = cached.authorities;
      additionals = cached.additionals;
    }

unfoldable pub is_expired : ℕ → CacheEntry → Bool
is_expired now e = leb e.expires_at now

-- `threshold` is the tuner's percentage.
unfoldable pub needs_refresh : ℕ → ℕ → CacheEntry → Bool
needs_refresh threshold now e =
    if is_expired now e
    then false
    else if e.ttl == 0
    then false
    else ltb ((e.expires_at - now) / second * 100 / e.ttl) threshold

-- The time to live of a reply: a failure is kept for the negative time.
unfoldable pub is_negative : ℕ → Bool
is_negative code = (code == nx_domain) || ((code == serv_fail) || (code == refused))

unfoldable pub cache_time : Settings → DnsMessage → ℕ
cache_time s reply =
    if is_negative (rcode reply.header) then s.negative_ttl else compute_cache_ttl s reply
