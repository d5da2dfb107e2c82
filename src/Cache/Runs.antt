-- ===== src/Cache/Runs.antt =====
-- Runs of the cache on a small state, and the theorems at them.
use dnss_cpp.Common.{
  ℕ, ◌+◌, ◌*◌, ◌<◌, ◌≡◌, ◌↔◌, refl, Bool, true, Option, none, some, List, [], ◌∷◌, arith, Called,
  returned,
}
use dnss_cpp.Common.Text.{text_eq}
use dnss_cpp.Protocol.Header.{qr, opcode, tc, rcode, flag_bit}
use dnss_cpp.Protocol.Message.{DnsMessage, DnsQuestion, DnsResourceRecord, nx_domain, no_error}
use dnss_cpp.Cache.{
  Cache, CacheKey, CacheEntry, Settings, key_of, key_eq, turbo_hash, hash_name, second,
}
use dnss_cpp.Cache.Policy.{
  should_cache, repeats, cacheable_rcode, is_empty, compute_cache_ttl, least_ttl, has_rr,
  cache_time, build_cached_reply, is_negative,
}
use dnss_cpp.Cache.Policy.Ttl.{Fits, compute_cache_ttl-Fits}
use dnss_cpp.Cache.Policy.Cacheable.{Cacheable, should_cache_iff}
use dnss_cpp.Cache.Turbo.{turbo_lookup, slot_lookup}
use dnss_cpp.Cache.Store.{Entries, find, evict}
use dnss_cpp.Cache.Store.Evict.{Evicted, evict-Evicted}
use dnss_cpp.Cache.Store.Laws.{IsMap}
use dnss_cpp.Cache.Query.{query}
use dnss_cpp.Cache.Query.Bounded.{IsBounded, query-IsBounded}
use dnss_cpp.Cache.Query.Again.{kept, query-query}
use dnss_cpp.Cache.Query.Replies.{build_cached_reply-Responds}

abbrev name : List ℕ
name = b'a' ∷ []

abbrev pub q : DnsQuestion
q = record { qname = name; qtype = 1; qclass = 1 }

abbrev q6 : DnsQuestion
q6 = record { qname = name; qtype = 28; qclass = 1 }

abbrev pub request : DnsMessage
request = record {
  header = record { id = 5; flags = 0x0100; qdcount = 1; ancount = 0; nscount = 0; arcount = 0 };
  questions = q ∷ [];
  answers = [];
  authorities = [];
  additionals = [];
}

abbrev address : DnsResourceRecord
address = record { name = name; type = 1; rclass = 1; ttl = 300; rdata = 10 ∷ 0 ∷ 0 ∷ 1 ∷ [] }

abbrev pub reply : DnsMessage
reply = record {
  header = record { id = 9; flags = 0x8180; qdcount = 1; ancount = 1; nscount = 0; arcount = 0 };
  questions = q ∷ [];
  answers = address ∷ [];
  authorities = [];
  additionals = [];
}

-- A name that does not exist.
abbrev failure : DnsMessage
failure = record {
  header = record { id = 9; flags = 0x8183; qdcount = 1; ancount = 0; nscount = 0; arcount = 0 };
  questions = q ∷ [];
  answers = [];
  authorities = [];
  additionals = [];
}

abbrev pub settings : Settings
settings = record { min_ttl = 60; negative_ttl = 300; stale_threshold = 3600 }

abbrev pub upstream : DnsMessage → Bool → Called (Option DnsMessage)
upstream req fan_out = returned (some reply)

abbrev silent : DnsMessage → Bool → Called (Option DnsMessage)
silent req fan_out = returned none

abbrev pub holding : Entries → Cache
holding entries = record {
  turbo = λ i. record { key_hash = 0; msg = none; expires_at = 0 };
  turbo_freq = λ i. 0;
  cache = entries;
  stale_refresh_queue = [];
  prewarm_tracker = [];
  total_queries = 0;
  cache_hits = 0;
  cache_misses = 0;
  cache_recorded = 0;
  preemptive_refreshes = 0;
  stale_hits = 0;
  turbo_hits = 0;
  perf = record { cache_hits = 0; cache_misses = 0; errors = 0; queries = 0 };
}

abbrev soon : CacheEntry
soon = record { msg = reply; ttl = 300; expires_at = 2 * second }

abbrev late : CacheEntry
late = record { msg = failure; ttl = 300; expires_at = 9 * second }

abbrev entries : Entries
entries = (key_of q6, late) ∷ (key_of q, soon) ∷ []

entries-IsMap : IsMap entries
unfolding key_eq text_eq
entries-IsMap = ((refl, tt), (tt, tt))

no_slot : (now : ℕ) (es : Entries) → turbo_lookup now (turbo_hash (key_of q)) (holding es) ≡ none
unfolding turbo_lookup slot_lookup turbo_hash hash_name
no_slot now es = refl

found : find (key_of q) entries ≡ some soon
unfolding find key_eq text_eq
found = refl

compute_cache_ttl-Fits_example : Fits settings reply (compute_cache_ttl settings reply)
compute_cache_ttl-Fits_example = compute_cache_ttl-Fits settings reply

should_cache_iff_example : (should_cache q failure ≡ true) ↔ Cacheable q failure
should_cache_iff_example = should_cache_iff q failure

holding-IsBounded : IsBounded (holding entries)
holding-IsBounded = (omega arith, entries-IsMap, omega arith)

query-IsBounded_example :
    IsBounded (query upstream true true settings 1 2 request (holding entries)).1
query-IsBounded_example =
    query-IsBounded upstream true true settings 1 2 request (holding entries) holding-IsBounded

cacheable : should_cache q reply ≡ true
unfolding should_cache qr opcode tc rcode repeats cacheable_rcode is_empty text_eq flag_bit
cacheable = refl

lives : second < 2 + cache_time settings reply * second
unfolding cache_time compute_cache_ttl least_ttl has_rr is_empty is_negative rcode
lives = omega arith

nothing_found : find (key_of q) [] ≡ none
unfolding find
nothing_found = refl

query-query_example :
    let first = query upstream true true settings 1 2 request (holding []) in
    (first.0 ≡ returned (some (kept settings reply)))
    × ((query silent true true settings second second request first.1).0
        ≡ returned (some (build_cached_reply request (kept settings reply))))
query-query_example =
    query-query upstream silent true true true true settings settings 1 2 second second request
      request q reply (holding []) refl refl (no_slot 1 []) nothing_found refl cacheable lives

-- The cached failure is answered as a success.
failure_lost :
    (rcode failure.header ≡ nx_domain)
    × (rcode (build_cached_reply request failure).header ≡ no_error)
unfolding rcode
failure_lost = (refl, (build_cached_reply-Responds request failure (omega arith)).2)

-- A cache whose turbo slots hold the reply.
abbrev turbo_full : Cache
turbo_full = record (holding entries) {
  turbo = λ i. record { key_hash = turbo_hash (key_of q); msg = some reply; expires_at = 5 };
}

slot_full : turbo_lookup 1 (turbo_hash (key_of q)) turbo_full ≡ some reply
unfolding turbo_lookup slot_lookup turbo_hash hash_name
slot_full = refl

-- `n78163.org` and `n120639.org`: two keys of one hash.
abbrev one_key : CacheKey
one_key = record {
  name = b'n' ∷ b'7' ∷ b'8' ∷ b'1' ∷ b'6' ∷ b'3' ∷ b'.' ∷ b'o' ∷ b'r' ∷ b'g' ∷ [];
  type = 1;
  qclass = 1;
}

abbrev other_key : CacheKey
other_key = record {
  name = b'n' ∷ b'1' ∷ b'2' ∷ b'0' ∷ b'6' ∷ b'3' ∷ b'9' ∷ b'.' ∷ b'o' ∷ b'r' ∷ b'g' ∷ [];
  type = 6801;
  qclass = 12131;
}

same_hash : turbo_hash one_key ≡ turbo_hash other_key
unfolding turbo_hash hash_name
same_hash = refl

evict-Evicted_example : Evicted second entries (evict second entries)
evict-Evicted_example = evict-Evicted second entries (omega arith)
