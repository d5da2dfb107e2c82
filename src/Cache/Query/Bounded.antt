-- ===== src/Cache/Query/Bounded.antt =====
-- What `query` and `refreshEntry` keep: the bound of the cache, one entry for each key, and the
-- bound of the queue of refreshes.
use dnss_cpp.Common.{
  ℕ, suc, ◌≤◌, ◌<◌, ◌≡◌, Bool, Option, none, some, List, [], ◌∷◌, arith, ltb, length, length-append,
  inl, inr, Bool-cases, Called, returned, thrown,
}
use dnss_cpp.Protocol.Message.{DnsMessage, DnsQuestion, serv_fail, create_error}
use dnss_cpp.Cache.{
  Cache, Settings, StaleRefreshWork, key_of, max_cache_size, max_stale_refresh_queue,
}
use dnss_cpp.Cache.Policy.{clobber_ttl}
use dnss_cpp.Cache.Turbo.{count_turbo, turbo_insert}
use dnss_cpp.Cache.Store.{Entries, evict}
use dnss_cpp.Cache.Store.Laws.{IsMap, put-IsMap, erase-IsMap, length-put}
use dnss_cpp.Cache.Store.Evict.{evict-Evicted}
use dnss_cpp.Cache.Query.{
  entry_for, failure_ttl, enqueue_refresh, upstream_failed, make_room, remember, upstream_answered,
  ask_upstream, serve_stale, serve_entry, serve_turbo, query_question, query_on, query,
}
use dnss_cpp.Cache.Query.Cases.{query_question_rule}

abbrev pub IsBounded : Cache → Type 0
IsBounded c =
    (length c.cache ≤ max_cache_size)
    × IsMap c.cache
    × (length c.stale_refresh_queue ≤ max_stale_refresh_queue)

pub enqueue_refresh-IsBounded :
    (w : StaleRefreshWork) (c : Cache) → IsBounded c → IsBounded (enqueue_refresh w c)
unfolding enqueue_refresh
enqueue_refresh-IsBounded w c (b, m, k) =
    elim (Bool-cases (ltb (length c.stale_refresh_queue) max_stale_refresh_queue)) [
      | inl h ↦ ground (arith, h, b, m, length-append c.stale_refresh_queue (w ∷ []))
      | inr h ↦ ground (arith, h, b, m, k)
    ]

evict-IsMap : (now : ℕ) (es : Entries) → IsMap es → IsMap (evict now es)
unfolding evict
evict-IsMap now [] h = tt
evict-IsMap now ((k, e) ∷ es) h = erase-IsMap _ ((k, e) ∷ es) h

evict_shorter : (now : ℕ) (es : Entries) → 0 < length es → suc (length (evict now es)) ≡ length es
evict_shorter now es h = let (key, e, has, eq, n, _) = evict-Evicted now es h in n

make_room-IsMap : (now : ℕ) (es : Entries) → IsMap es → IsMap (make_room now es)
unfolding make_room
make_room-IsMap now es h = ground (arith, h, evict-IsMap now es h)

length-make_room :
    (now : ℕ) (es : Entries)
    → length es ≤ max_cache_size
    → length (make_room now es) < max_cache_size
unfolding make_room
length-make_room now es h = ground (arith, evict_shorter now es)

module _ (s : Settings) (done : ℕ) where
  upstream_failed-IsBounded :
      (req : DnsMessage) (q : DnsQuestion) (c : Cache)
      → IsBounded c
      → IsBounded (upstream_failed s done req q c).1
  unfolding upstream_failed turbo_insert
  upstream_failed-IsBounded req q c (b, m, k) =
      let ttl = failure_ttl s in
      let entry = entry_for (clobber_ttl ttl (create_error req serv_fail)) ttl done in
      ground
        (arith, b, m, k, put-IsMap (key_of q) entry c.cache m, length-put (key_of q) entry c.cache)

  remember-IsBounded :
      (q : DnsQuestion) (reply : DnsMessage) (c : Cache)
      → IsBounded c
      → IsBounded (remember s done q reply c).1
  unfolding remember turbo_insert
  remember-IsBounded q reply c (b, m, k) =
      let room = make_room done c.cache in
      (
        omega (arith, length-put (key_of q) _ room, length-make_room done c.cache b),
        put-IsMap (key_of q) _ room (make_room-IsMap done c.cache m),
        k,
      )

  upstream_answered-IsBounded :
      (req : DnsMessage) (q : DnsQuestion) (r : Called (Option DnsMessage)) (c : Cache)
      → IsBounded c
      → IsBounded (upstream_answered s done req q r c).1
  unfolding upstream_answered
  upstream_answered-IsBounded req q thrown c h = h
  upstream_answered-IsBounded req q (returned none) c h = upstream_failed-IsBounded req q c h
  upstream_answered-IsBounded req q (returned (some reply)) c h =
      ground (arith, h, remember-IsBounded q reply c h)

module _ (upstream : DnsMessage → Bool → Called (Option DnsMessage)) (fan_out allow : Bool)
    (s : Settings) where
  query_question-IsBounded :
      (now done : ℕ) (req : DnsMessage) (q : DnsQuestion) (c : Cache)
      → IsBounded c
      → IsBounded (query_question upstream fan_out s now done req q c).1
  query_question-IsBounded now done req q c h =
      query_question_rule upstream fan_out s now done req q c (λ a. IsBounded a.1)
        (λ m _. unfold serve_turbo in unfold count_turbo in h)
        (λ e _ _. unfold serve_entry in unfold turbo_insert in h)
        (λ e _ _ _. unfold serve_stale in enqueue_refresh-IsBounded _ _ (unfold turbo_insert in h))
        (unfold ask_upstream in upstream_answered-IsBounded s done req q (upstream req fan_out) _ h)

  query_on-IsBounded :
      (now done : ℕ) (req : DnsMessage) (qs : List DnsQuestion) (c : Cache)
      → IsBounded c
      → IsBounded (query_on upstream fan_out allow s now done req qs c).1
  unfolding query_on
  query_on-IsBounded now done req [] c h = h
  query_on-IsBounded now done req (q ∷ []) c h = query_question-IsBounded now done req q _ h
  query_on-IsBounded now done req (q ∷ r ∷ rest) c h = h

-- If the cache has at most 50000 entries, each key at most one, and the queue of refreshes at most 64,
-- then so it is after `query`, whatever the request is and the upstream answers.
pub query-IsBounded :
    (upstream : DnsMessage → Bool → Called (Option DnsMessage)) (fan_out allow : Bool)
    (s : Settings) (now done : ℕ) (req : DnsMessage) (c : Cache)
    → IsBounded c
    → IsBounded (query upstream fan_out allow s now done req c).1
unfolding query
query-IsBounded upstream fan_out allow s now done req c h =
    query_on-IsBounded upstream fan_out allow s now done req req.questions _ h
