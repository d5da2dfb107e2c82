-- ===== src/Cache/Query/Replies.antt =====
-- What `buildCachedReply` makes of a cached message, and what `query` answers after `flushCache`.
use dnss_cpp.Common.{
  ℕ, ◌%◌, ◌^◌, ◌≡◌, refl, ap, ◌∙◌, Bool, Option, some, [], ◌∷◌, length, Called, returned,
}
use dnss_cpp.Common.Bytes.{IsU16}
use dnss_cpp.Protocol.Header.{qr, ra, opcode, aa, tc, rd, rcode}
use dnss_cpp.Protocol.Message.{DnsMessage, DnsQuestion}
use dnss_cpp.Protocol.Message.Replies.{Responds, create_reply-Responds}
use dnss_cpp.Cache.{Cache, Settings, key_of, turbo_hash}
use dnss_cpp.Cache.Policy.{build_cached_reply}
use dnss_cpp.Cache.Turbo.{turbo_lookup}
use dnss_cpp.Cache.Store.{flush_cache}
use dnss_cpp.Cache.Query.{Outcome, serve_turbo, query}
use dnss_cpp.Cache.Query.Again.{query_turbo}

-- The three sections of a message, with counts that fit in 16 bits.
abbrev pub Carries : DnsMessage → DnsMessage → Type 0
Carries cached m =
    (m.answers ≡ cached.answers)
    × (m.authorities ≡ cached.authorities)
    × (m.additionals ≡ cached.additionals)
    × (m.header.ancount ≡ length cached.answers % 2 ^ 16)
    × (m.header.nscount ≡ length cached.authorities % 2 ^ 16)
    × (m.header.arcount ≡ length cached.additionals % 2 ^ 16)

-- For a request whose flags fit in 16 bits, a reply from the cache answers the request: its identifier and its questions, as a
-- response with recursion available and the request's opcode and flags. It carries the records of
-- the cached message. Its response code is the request's, whatever the cached message's was.
pub build_cached_reply-Responds :
    (req cached : DnsMessage)
    → IsU16 req.header.flags
    → Responds req.header (build_cached_reply req cached).header
      × ((build_cached_reply req cached).questions ≡ req.questions)
      × (rcode (build_cached_reply req cached).header ≡ rcode req.header)
      × Carries cached (build_cached_reply req cached)
unfolding build_cached_reply qr ra opcode aa tc rd rcode
build_cached_reply-Responds req cached fits =
    let (r, c, bare) = create_reply-Responds req fits in
    (
      record {
        same_id = r.same_id;
        is_response = r.is_response;
        recursion_available = r.recursion_available;
        same_opcode = r.same_opcode;
        same_aa = r.same_aa;
        same_tc = r.same_tc;
        same_rd = r.same_rd;
      },
      bare.same_questions,
      c,
      (refl, refl, refl, refl, refl, refl),
    )

-- `flushCache` empties the map and not the turbo cache: a question whose slot has an answer is still
-- answered with it after a flush, whatever the upstream says.
pub query-flush_cache :
    (upstream : DnsMessage → Bool → Called (Option DnsMessage)) (fan_out allow : Bool)
    (s : Settings) (now done : ℕ) (req : DnsMessage) (q : DnsQuestion) (m : DnsMessage) (c : Cache)
    → req.questions ≡ q ∷ []
    → turbo_lookup now (turbo_hash (key_of q)) c ≡ some m
    → ((flush_cache c).cache ≡ [])
      × ((query upstream fan_out allow s now done req (flush_cache c)).0
          ≡ returned (some (build_cached_reply req m)))
unfolding flush_cache
query-flush_cache upstream fan_out allow s now done req q m c h t = (
  refl,
  ap (λ (a : Outcome). a.0)
        (query_turbo upstream fan_out allow s now done req q (flush_cache c) m h
          (unfold turbo_lookup in t))
      ∙ (unfold serve_turbo in refl),
)
