-- ===== src/Cache/Query.antt =====
-- `CachingResolver::query` and `refreshEntry` of caching_resolver.cpp. The resolver behind it is
-- the function `upstream`, and `fan_out` is the tuner's decision. `now` is the time of the lookups
-- and `done` that of the upstream's answer.
pub mod Cases
pub mod Bounded
pub mod Counts
pub mod Again
pub mod Replies
pub mod Refresh
use dnss_cpp.Common.{
  ℕ, ◌+◌, ◌*◌, ◌/◌, Bool, true, false, Option, none, some, List, [], ◌∷◌, ◌++◌, ltb, leb,
  if◌then◌else◌, length, Called, returned, thrown,
}
use dnss_cpp.Common.Text.{text_eq}
use dnss_cpp.Protocol.Header.{zero_header, set_rd}
use dnss_cpp.Protocol.Message.{DnsMessage, DnsQuestion, serv_fail, create_error}
use dnss_cpp.Perf.{record_cache_hit, record_cache_miss}
use dnss_cpp.Cache.{
  Cache, CacheKey, CacheEntry, Settings, StaleRefreshWork, key_of, turbo_hash, second,
  max_cache_size, max_stale_refresh_queue,
}
use dnss_cpp.Cache.Policy.{should_cache, cache_time, clobber_ttl, build_cached_reply, is_expired}
use dnss_cpp.Cache.Turbo.{turbo_lookup, count_turbo, turbo_insert}
use dnss_cpp.Cache.Store.{Entries, find, put, evict}

abbrev pub Answer : Type 0
Answer = Option DnsMessage × Cache

-- A call of `query`: an exception of the upstream is passed on, with the cache as it is then.
abbrev pub Outcome : Type 0
Outcome = Called (Option DnsMessage) × Cache

abbrev pub answer_with : Answer → Outcome
answer_with a = (returned a.0, a.1)

-- `prewarmTracker_[q.qname]++`
unfoldable pub track : List ℕ → List (List ℕ × ℕ) → List (List ℕ × ℕ)
track name [] = (name, 1) ∷ []
track name ((n, k) ∷ rest) =
    let more = track name rest in if text_eq name n then (n, k + 1) ∷ rest else (n, k) ∷ more

-- `if (staleRefreshQueue_.size() < MAX_STALE_REFRESH_QUEUE) push_back`
unfoldable pub enqueue_refresh : StaleRefreshWork → Cache → Cache
enqueue_refresh work c =
    if ltb (length c.stale_refresh_queue) max_stale_refresh_queue
    then record c { stale_refresh_queue = c.stale_refresh_queue ++ (work ∷ []) }
    else c

abbrev pub count_hit : Cache → Cache
count_hit c = record c { cache_hits = c.cache_hits + 1; perf = record_cache_hit c.perf }

abbrev pub count_miss : Cache → Cache
count_miss c = record c { cache_misses = c.cache_misses + 1; perf = record_cache_miss c.perf }

abbrev pub count_stale : Cache → Cache
count_stale c = record c { stale_hits = c.stale_hits + 1; perf = record_cache_hit c.perf }

-- The entry that is stored for a message, from the time `done` on.
abbrev pub entry_for : DnsMessage → ℕ → ℕ → CacheEntry
entry_for m ttl done = record { msg = m; ttl = ttl; expires_at = done + ttl * second }

-- `std::clamp(negativeTTLSecs / 10, 30, 60)`
unfoldable pub failure_ttl : Settings → ℕ
failure_ttl s =
    let tenth = s.negative_ttl / 10 in
    if ltb tenth 30 then 30 else if ltb 60 tenth then 60 else tenth

-- The upstream gave no answer: SERVFAIL, cached for a short time if there is room.
unfoldable pub upstream_failed : Settings → ℕ → DnsMessage → DnsQuestion → Cache → Answer
upstream_failed s done req q c =
    let ttl = failure_ttl s in
    let error = clobber_ttl ttl (create_error req serv_fail) in
    let entry = entry_for error ttl done in
    let stored = record c { cache = put (key_of q) entry c.cache } in
    let inserted = turbo_insert (turbo_hash (key_of q)) error entry.expires_at stored in
    if leb max_cache_size (length c.cache)
    then (some error, c)
    else (some error, record inserted { cache_recorded = inserted.cache_recorded + 1 })

-- Room is made by evicting one entry, also where the key is in the cache already.
unfoldable pub make_room : ℕ → Entries → Entries
make_room done entries = if leb max_cache_size (length entries) then evict done entries else entries

unfoldable pub remember : Settings → ℕ → DnsQuestion → DnsMessage → Cache → Answer
remember s done q reply c =
    let ttl = cache_time s reply in
    let kept = clobber_ttl ttl reply in
    let entry = entry_for kept ttl done in
    let stored = record c {
      cache = put (key_of q) entry (make_room done c.cache);
      cache_recorded = c.cache_recorded + 1;
    } in
    (some kept, turbo_insert (turbo_hash (key_of q)) kept entry.expires_at stored)

unfoldable pub upstream_answered :
    Settings → ℕ → DnsMessage → DnsQuestion → Called (Option DnsMessage) → Cache → Outcome
upstream_answered s done req q thrown c = (thrown, c)
upstream_answered s done req q (returned none) c = answer_with (upstream_failed s done req q c)
upstream_answered s done req q (returned (some reply)) c =
    if should_cache q reply
    then answer_with (remember s done q reply c)
    else (returned (some reply), c)

-- The rest of `query`, which needs the upstream.
unfoldable pub ask_upstream :
    (DnsMessage → Bool → Called (Option DnsMessage))
    → Bool
    → Settings
    → ℕ
    → DnsMessage
    → DnsQuestion
    → Cache
    → Outcome
ask_upstream upstream fan_out s done req q c =
    upstream_answered s done req q (upstream req fan_out) (count_miss c)

unfoldable pub serve_stale : ℕ → DnsMessage → DnsQuestion → CacheEntry → Cache → Answer
serve_stale now req q e c =
    let inserted = turbo_insert (turbo_hash (key_of q)) e.msg (now + 60 * second) (count_stale c) in
    (
      some (build_cached_reply req e.msg),
      enqueue_refresh (record { key = key_of q; question = q }) inserted,
    )

unfoldable pub serve_entry : DnsMessage → DnsQuestion → CacheEntry → Cache → Answer
serve_entry req q e c = (
  some (build_cached_reply req e.msg),
  turbo_insert (turbo_hash (key_of q)) e.msg e.expires_at (count_hit c),
)

unfoldable pub serve_turbo : DnsMessage → DnsQuestion → DnsMessage → Cache → Answer
serve_turbo req q m c =
    let counted = count_hit (count_turbo (turbo_hash (key_of q)) c) in
    (some (build_cached_reply req m), record counted { turbo_hits = counted.turbo_hits + 1 })

-- The two levels, and then the upstream.
unfoldable pub query_question :
    (DnsMessage → Bool → Called (Option DnsMessage))
    → Bool
    → Settings
    → ℕ
    → ℕ
    → DnsMessage
    → DnsQuestion
    → Cache
    → Outcome
query_question upstream fan_out s now done req q c =
    elim (turbo_lookup now (turbo_hash (key_of q)) c) [
      | some m ↦ answer_with (serve_turbo req q m c)
      | none ↦ elim (find (key_of q) c.cache) [
        | none ↦ ask_upstream upstream fan_out s done req q c
        | some e ↦
            if is_expired now e
            then if ltb now (e.expires_at + s.stale_threshold * second)
              then answer_with (serve_stale now req q e c)
              else ask_upstream upstream fan_out s done req q c
            else answer_with (serve_entry req q e c)
      ]
    ]

-- Only a request with one question is looked up; any other goes to the upstream as it is.
unfoldable pub query_on :
    (DnsMessage → Bool → Called (Option DnsMessage))
    → Bool
    → Bool
    → Settings
    → ℕ
    → ℕ
    → DnsMessage
    → List DnsQuestion
    → Cache
    → Outcome
query_on upstream fan_out allow s now done req [] c = (upstream req allow, c)
query_on upstream fan_out allow s now done req (q ∷ []) c =
    query_question upstream fan_out s now done req q
      (record c { prewarm_tracker = track q.qname c.prewarm_tracker })
query_on upstream fan_out allow s now done req (q ∷ r ∷ rest) c = (upstream req allow, c)

unfoldable pub query :
    (DnsMessage → Bool → Called (Option DnsMessage))
    → Bool
    → Bool
    → Settings
    → ℕ
    → ℕ
    → DnsMessage
    → Cache
    → Outcome
query upstream fan_out allow s now done req c =
    query_on upstream fan_out allow s now done req req.questions
      (record c { total_queries = c.total_queries + 1 })

abbrev pub refresh_request : DnsQuestion → DnsMessage
refresh_request q = record {
  header = record (set_rd true zero_header) { qdcount = 1 };
  questions = q ∷ [];
  answers = [];
  authorities = [];
  additionals = [];
}

-- `refreshEntry`: an entry that is still there is written anew, and none is added.
unfoldable pub refreshed : Settings → ℕ → CacheKey → DnsMessage → Option CacheEntry → Cache → Cache
refreshed s done key reply none c = c
refreshed s done key reply (some e) c =
    let ttl = cache_time s reply in
    record c {
      cache = put key (entry_for (clobber_ttl ttl reply) ttl done) c.cache;
      preemptive_refreshes = c.preemptive_refreshes + 1;
    }

unfoldable pub refresh_entry :
    (DnsMessage → Bool → Called (Option DnsMessage))
    → Settings
    → ℕ
    → CacheKey
    → DnsQuestion
    → Cache
    → Called (Unit {0}) × Cache
refresh_entry upstream s done key question c = elim (upstream (refresh_request question) true) [
  | thrown ↦ (thrown, c)
  | returned none ↦ (returned tt, c)
  | returned (some reply) ↦ (
    returned tt,
    if should_cache question reply then refreshed s done key reply (find key c.cache) c else c,
  )
]
