-- ===== src/Cache/Peek.antt =====
-- `peekCache` and `peekCacheRaw` of caching_resolver.cpp: the lookups that the server makes before a
-- request goes to a worker. They never ask the upstream. A `DnsMessagePtr` that is null is `none`.
pub mod Agree
pub mod Wire
pub mod Runs
use dnss_cpp.Common.{
  ℕ, zero, suc, ◌+◌, ◌*◌, ◌%◌, ◌^◌, Option, none, some, List, [], ◌∷◌, ltb, leb, ◌==◌,
  if◌then◌else◌, length, bit_and, Result, ok, out_of_fuel, ◌>>=◌,
}
use dnss_cpp.Protocol.Buffer.{read, read_range}
use dnss_cpp.Protocol.Words.{read_u16}
use dnss_cpp.Protocol.Name.{add_label}
use dnss_cpp.Protocol.Message.{DnsMessage, DnsQuestion}
use dnss_cpp.Perf.{record_cache_hit, record_dns_query}
use dnss_cpp.Cache.{Cache, CacheEntry, Settings, key_of, turbo_hash, second}
use dnss_cpp.Cache.Policy.{build_cached_reply, is_expired}
use dnss_cpp.Cache.Turbo.{turbo_lookup, count_turbo, turbo_insert}
use dnss_cpp.Cache.Store.{find}
use dnss_cpp.Cache.Query.{Answer, enqueue_refresh}

-- What every answer from the cache counts here.
abbrev pub count_peek : Cache → Cache
count_peek c = record c {
  total_queries = c.total_queries + 1;
  cache_hits = c.cache_hits + 1;
  perf = record_cache_hit (record_dns_query c.perf);
}

unfoldable pub peek_turbo : DnsQuestion → Cache → Cache
peek_turbo q c =
    let counted = count_peek (count_turbo (turbo_hash (key_of q)) c) in
    record counted { turbo_hits = counted.turbo_hits + 1 }

abbrev pub peek_stale : Cache → Cache
peek_stale c = let counted = count_peek c in record counted { stale_hits = counted.stale_hits + 1 }

unfoldable pub peek_question : ℕ → Settings → DnsMessage → DnsQuestion → Cache → Answer
peek_question now s req q c = elim (turbo_lookup now (turbo_hash (key_of q)) c) [
  | some m ↦ (some (build_cached_reply req m), peek_turbo q c)
  | none ↦ elim (find (key_of q) c.cache) [
    | none ↦ (none, c)
    | some e ↦
        if is_expired now e
        then if ltb now (e.expires_at + s.stale_threshold * second)
          then (some (build_cached_reply req e.msg), peek_stale c)
          else (none, c)
        else (some (build_cached_reply req e.msg), count_peek c)
  ]
]

unfoldable pub peek_on : ℕ → Settings → DnsMessage → List DnsQuestion → Cache → Answer
peek_on now s req [] c = (none, c)
peek_on now s req (q ∷ []) c = peek_question now s req q c
peek_on now s req (q ∷ r ∷ rest) c = (none, c)

unfoldable pub peek_cache : ℕ → Settings → DnsMessage → Cache → Answer
peek_cache now s req c = peek_on now s req req.questions c

-- One round of the loop over the labels: it stops at the end, at a zero or at a pointer; a label that
-- does not fit makes the whole call return null.
pub data RawMove : Type 0 where
  stop : RawMove
  null : RawMove
  next : List ℕ → ℕ → RawMove

unfoldable pub raw_on_length : List ℕ → ℕ → List ℕ → ℕ → Result RawMove
raw_on_length buf p name len =
    if len == 0
    then ok stop
    else if bit_and len 0xC0 == 0xC0
    then ok stop
    else if ltb (length buf) (p + 1 + len)
    then ok null
    else do label ← read_range buf (p + 1) len; ok (next (add_label name label) (p + 1 + len))

unfoldable pub raw_step : List ℕ → ℕ → List ℕ → Result RawMove
raw_step buf p name =
    if leb (length buf) p then ok stop else do len ← read buf p; raw_on_length buf p name len

unfoldable pub raw_name : ℕ → List ℕ → ℕ → List ℕ → Result (Option (List ℕ × ℕ))
raw_name zero buf p name = out_of_fuel
raw_name (suc fuel) buf p name = do
  move ← raw_step buf p name
  elim move [ stop ↦ ok (some (name, p)) | null ↦ ok none | next n q ↦ raw_name fuel buf q n ]

-- `++p` and the two fields behind it.
unfoldable pub raw_type : List ℕ → Option (List ℕ × ℕ) → Result (Option DnsQuestion)
raw_type buf none = ok none
raw_type buf (some (name, p)) =
    if leb (length buf) p then ok none else if ltb (length buf) (p + 1 + 4) then ok none else do
      qtype ← read_u16 buf (p + 1)
      qclass ← read_u16 buf (p + 3)
      ok (some (record { qname = name; qtype = qtype; qclass = qclass }))

-- The loop needs at most one round for each byte, and one more.
unfoldable pub raw_counted : List ℕ → ℕ → Result (Option DnsQuestion)
raw_counted buf qdcount =
    if qdcount == 0
    then ok none
    else do name ← raw_name (suc (length buf)) buf 12 []; raw_type buf name

-- The question of a raw request.
unfoldable pub raw_question : List ℕ → Result (Option DnsQuestion)
raw_question buf =
    if ltb (length buf) 12 then ok none else do qdcount ← read_u16 buf 4; raw_counted buf qdcount

abbrev pub raw_reply : ℕ → DnsMessage → DnsMessage
raw_reply id m = record {
  header = record {
    id = id;
    flags = 0x8180;
    qdcount = 1;
    ancount = length m.answers % 2 ^ 16;
    nscount = length m.authorities % 2 ^ 16;
    arcount = length m.additionals % 2 ^ 16;
  };
  questions = m.questions;
  answers = m.answers;
  authorities = m.authorities;
  additionals = m.additionals;
}

-- The reply from a stale entry leaves out two sections.
abbrev pub raw_stale_reply : ℕ → DnsMessage → DnsMessage
raw_stale_reply id m = record {
  header = record {
    id = id;
    flags = 0x8180;
    qdcount = 1;
    ancount = length m.answers % 2 ^ 16;
    nscount = 0;
    arcount = 0;
  };
  questions = m.questions;
  answers = m.answers;
  authorities = [];
  additionals = [];
}

unfoldable pub raw_lookup : ℕ → Settings → ℕ → DnsQuestion → Cache → Answer
raw_lookup now s id q c =
    let h = turbo_hash (key_of q) in
    elim (turbo_lookup now h c) [
      | some m ↦ (some (raw_reply id m), peek_turbo q c)
      | none ↦ elim (find (key_of q) c.cache) [
        | none ↦ (none, c)
        | some e ↦
            if is_expired now e
            then if ltb now (e.expires_at + s.stale_threshold * second)
              then (
                some (raw_stale_reply id e.msg),
                enqueue_refresh (record { key = key_of q; question = q })
                    (turbo_insert h e.msg (now + 60 * second) (peek_stale c)),
              )
              else (none, c)
            else (some (raw_reply id e.msg), turbo_insert h e.msg e.expires_at (count_peek c))
      ]
    ]

unfoldable pub peek_cache_raw : ℕ → Settings → List ℕ → Cache → Result Answer
peek_cache_raw now s buf c = do
  question ← raw_question buf
  elim question [
    | none ↦ ok (none, c)
    | some q ↦ do id ← read_u16 buf 0; ok (raw_lookup now s id q c)
  ]
