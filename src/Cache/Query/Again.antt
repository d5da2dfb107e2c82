-- ===== src/Cache/Query/Again.antt =====
-- What `query` answers from the cache, after it has asked the upstream once.
use dnss_cpp.Common.{
  ℕ, ◌+◌, ◌*◌, ◌<◌, ◌≡◌, refl, ap, ◌∙◌, Bool, true, Option, none, some, [], ◌∷◌, arith,
  if◌then◌else◌, Called, returned,
}
use dnss_cpp.Protocol.Message.{DnsMessage, DnsQuestion}
use dnss_cpp.Cache.{Cache, CacheEntry, Settings, key_of, turbo_hash, second}
use dnss_cpp.Cache.Policy.{should_cache, cache_time, clobber_ttl, build_cached_reply}
use dnss_cpp.Cache.Turbo.{turbo_lookup, turbo_insert}
use dnss_cpp.Cache.Turbo.Slots.{turbo_lookup-turbo_insert}
use dnss_cpp.Cache.Store.{find}
use dnss_cpp.Cache.Store.Laws.{find-put, key_eq_iff}
use dnss_cpp.Cache.Query.{
  Outcome, answer_with, count_miss, track, entry_for, make_room, remember, upstream_answered,
  ask_upstream, serve_turbo, query_question, query_on, query,
}
use dnss_cpp.Cache.Query.Cases.{run_turbo, run_none}

-- The counting of a request with one question, before the lookups.
abbrev pub seen : DnsQuestion → Cache → Cache
seen q c = record c {
  total_queries = c.total_queries + 1;
  prewarm_tracker = track q.qname c.prewarm_tracker;
}

module _ (upstream : DnsMessage → Bool → Called (Option DnsMessage)) (fan_out allow : Bool)
    (s : Settings) where
  module _ (now done : ℕ) (req : DnsMessage) (q : DnsQuestion) (c : Cache) where
    pub query_one :
        req.questions ≡ q ∷ []
        → query upstream fan_out allow s now done req c
          ≡ query_question upstream fan_out s now done req q (seen q c)
    unfolding query query_on
    query_one h =
        ap
          (λ qs.
            query_on upstream fan_out allow s now done req qs
              (record c { total_queries = c.total_queries + 1 }))
          h

    pub query_turbo :
        (m : DnsMessage)
        → req.questions ≡ q ∷ []
        → turbo_lookup now (turbo_hash (key_of q)) c ≡ some m
        → query upstream fan_out allow s now done req c
          ≡ answer_with (serve_turbo req q m (seen q c))
    query_turbo m h t =
        query_one h
        ∙ run_turbo upstream fan_out s now done req q (seen q c) m (unfold turbo_lookup in t)

    asked :
        (reply : DnsMessage)
        → upstream req fan_out ≡ returned (some reply)
        → should_cache q reply ≡ true
        → ask_upstream upstream fan_out s done req q (seen q c)
          ≡ answer_with (remember s done q reply (count_miss (seen q c)))
    unfolding ask_upstream upstream_answered
    asked reply u k =
        ap (λ r. upstream_answered s done req q r (count_miss (seen q c))) u
        ∙ ap
            (λ b.
              if b
              then answer_with (remember s done q reply (count_miss (seen q c)))
              else (returned (some reply), count_miss (seen q c)))
            k

    query_new :
        (reply : DnsMessage)
        → req.questions ≡ q ∷ []
        → turbo_lookup now (turbo_hash (key_of q)) c ≡ none
        → find (key_of q) c.cache ≡ none
        → upstream req fan_out ≡ returned (some reply)
        → should_cache q reply ≡ true
        → query upstream fan_out allow s now done req c
          ≡ answer_with (remember s done q reply (count_miss (seen q c)))
    query_new reply h t f u k =
        query_one h
        ∙ run_none upstream fan_out s now done req q (seen q c) (unfold turbo_lookup in t) f
        ∙ asked reply u k

-- What is stored for a reply: its records with the time to live that was chosen.
abbrev pub kept : Settings → DnsMessage → DnsMessage
kept s reply = clobber_ttl (cache_time s reply) reply

-- The turbo cache and the map hold the reply.
abbrev pub Holds : ℕ → DnsQuestion → CacheEntry → Cache → Type 0
Holds now q e c =
    (turbo_lookup now (turbo_hash (key_of q)) c ≡ some e.msg) × (find (key_of q) c.cache ≡ some e)

remember-Holds :
    (s : Settings) (done now : ℕ) (q : DnsQuestion) (reply : DnsMessage) (c : Cache)
    → now < done + cache_time s reply * second
    → Holds now q (entry_for (kept s reply) (cache_time s reply) done) (remember s done q reply c).1
unfolding remember
remember-Holds s done now q reply c h =
    let e = entry_for (kept s reply) (cache_time s reply) done in
    (
      turbo_lookup-turbo_insert now (key_of q) (key_of q) (kept s reply) e.expires_at _
          ∙ ground arith,
      (unfold turbo_insert in
          find-put (key_of q) (key_of q) e (make_room done c.cache)
          ∙ ap (λ b. if b then some e else find (key_of q) (make_room done c.cache))
              ((key_eq_iff (key_of q) (key_of q)).1 refl)),
    )

-- Take a request with one question that neither level of the cache finds, for which the upstream
-- returns a reply that may be cached. It is answered with that reply, its records having the time to
-- live that was chosen for it. If the next request that the resolver gets has the same question, at a
-- time at which that time to live has not passed since the reply came, it is answered with the
-- records of that reply, and the answer is the same whatever upstream stands behind the second
-- request.
pub query-query :
    (up up' : DnsMessage → Bool → Called (Option DnsMessage)) (fan fan' allow allow' : Bool)
    (s s' : Settings) (now done now' done' : ℕ) (req req' : DnsMessage) (q : DnsQuestion)
    (reply : DnsMessage) (c : Cache)
    → req.questions ≡ q ∷ []
    → req'.questions ≡ q ∷ []
    → turbo_lookup now (turbo_hash (key_of q)) c ≡ none
    → find (key_of q) c.cache ≡ none
    → up req fan ≡ returned (some reply)
    → should_cache q reply ≡ true
    → now' < done + cache_time s reply * second
    → let first = query up fan allow s now done req c in
      (first.0 ≡ returned (some (kept s reply)))
      × ((query up' fan' allow' s' now' done' req' first.1).0
          ≡ returned (some (build_cached_reply req' (kept s reply))))
query-query up up' fan fan' allow allow' s s' now done now' done' req req' q reply c h h' t f u k
      l =
    let first = query_new up fan allow s now done req q c reply h t f u k in
    let later = remember-Holds s done now' q reply (count_miss (seen q c)) l in
    (
      ap (λ (a : Outcome). a.0) first ∙ (unfold remember in refl),
      ap (λ (a : Outcome). (query up' fan' allow' s' now' done' req' a.1).0) first
          ∙ ap (λ (a : Outcome). a.0)
              (query_turbo up' fan' allow' s' now' done' req' q _ (kept s reply) h' later.0)
          ∙ (unfold serve_turbo in refl),
    )
