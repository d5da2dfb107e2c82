-- ===== src/Server/Receive/Escapes.antt =====
-- What a call of `onUdpReceive` keeps, and the only way an exception leaves it.
use dnss_cpp.Common.{
  Called, ℕ, ◌≡◌, refl, Bool, true, false, Option, none, some, List, [], ◌∷◌, arith, ltb, leb,
  length, length-append, Result, ok, throw, out_of_bounds, out_of_fuel, ◌>>=◌, Answers, Ends,
  Bool-cases, inl, inr,
}
use dnss_cpp.Protocol.Message.{DnsMessage}
use dnss_cpp.Protocol.Parse.{parse}
use dnss_cpp.Protocol.Parse.Safety.{parse-Ends}
use dnss_cpp.Protocol.Pack.{pack}
use dnss_cpp.Protocol.Pack.Safety.{pack-Answers}
use dnss_cpp.Cache.{Cache, Settings}
use dnss_cpp.Cache.Query.{Answer, Outcome}
use dnss_cpp.Cache.Query.Bounded.{IsBounded, query-IsBounded}
use dnss_cpp.Cache.Peek.{raw_question, peek_cache_raw}
use dnss_cpp.Server.RateLimiter.{allow}
use dnss_cpp.Server.ThreadPool.{try_enqueue}
use dnss_cpp.Server.Worker.{Served, Round, replied, or_serv_fail, caught, resolver, count_query}
use dnss_cpp.Server.Worker.Rounds.{Holds, RoundHolds, PeekHolds, peek_cache_raw-Settles}
use dnss_cpp.Server.HandleQuery.Answers.{Settles}
use dnss_cpp.Server.Receive.{
  send_inline, answer_saturated, offer, after_cache, on_allowed, on_udp_receive,
}

-- An exception is that of `pack` at an answer from the cache.
abbrev pub Receives : Result (Option DnsMessage × Cache) → Result Round → Type 0
Receives peek (ok round) = RoundHolds round
Receives peek (throw e) =
    (reply : DnsMessage) × (c : Cache) × (peek ≡ ok (some reply, c)) × (pack reply ≡ throw e)
Receives peek out_of_bounds = Unit
Receives peek out_of_fuel = ⊥

send_inline-Settles :
    (reply : DnsMessage) (st : Served) (r : Result (List ℕ))
    → Answers r
    → Holds st
    → Settles RoundHolds (send_inline reply st r)
unfolding send_inline
send_inline-Settles reply st (ok wire) a h = ground (arith, h)
send_inline-Settles reply st (throw e) a h = h
send_inline-Settles reply st out_of_bounds a h = tt
send_inline-Settles reply st out_of_fuel a h = a

answer_saturated-Settles :
    (ask : DnsMessage → Outcome) (st : Served) (r : Result DnsMessage)
    → Ends r
    → Holds st
    → ((req : DnsMessage) → IsBounded (ask req).1)
    → Settles RoundHolds (answer_saturated ask st r)
unfolding answer_saturated
answer_saturated-Settles ask st (ok req) e h k =
    let message = or_serv_fail req (caught (ask req).0) in
    send_inline-Settles message (record st { cache = (ask req).1 }) (pack message)
      (pack-Answers message) (k req, h.1)
answer_saturated-Settles ask st (throw x) e h k = h
answer_saturated-Settles ask st out_of_bounds e h k = tt
answer_saturated-Settles ask st out_of_fuel e h k = e

offer-Settles :
    (ask : DnsMessage → Outcome) (bytes : List ℕ) (st : Served)
    → Holds st
    → ((req : DnsMessage) → IsBounded (ask req).1)
    → Settles RoundHolds (offer ask bytes st)
unfolding offer try_enqueue
offer-Settles ask bytes st (h, l) k =
    elim (Bool-cases (leb st.pool.backpressure_limit (length st.pool.tasks))) [
      | inl full ↦
          rw full (answer_saturated-Settles ask st (parse bytes) (parse-Ends bytes) (h, l) k)
      | inr room ↦ rw room (h, ground (arith, room, length-append st.pool.tasks (bytes ∷ [])))
    ]

-- With or without a header: fewer than 12 bytes are no question.
pub peek-Settles :
    (now : ℕ) (s : Settings) (bytes : List ℕ) (c : Cache)
    → IsBounded c
    → Settles PeekHolds (peek_cache_raw now s bytes c)
unfolding peek_cache_raw raw_question
peek-Settles now s bytes c h = elim (Bool-cases (ltb (length bytes) 12)) [
  | inl short ↦ rw short h
  | inr long ↦ peek_cache_raw-Settles now s bytes c (ground arith) h
]

settled :
    (peek : Result (Option DnsMessage × Cache)) (r : Result Round)
    → Settles RoundHolds r
    → Receives peek r
settled peek (ok round) h = h
settled peek (throw e) h = absurd h
settled peek out_of_bounds h = tt
settled peek out_of_fuel h = h

module _ (upstream : DnsMessage → Bool → Called (Option DnsMessage)) (fan_out : Bool)
    (s : Settings) where
  packed :
      (peek : Result (Option DnsMessage × Cache)) (reply : DnsMessage) (c : Cache) (st : Served)
      (r : Result (List ℕ))
      → peek ≡ ok (some reply, c)
      → pack reply ≡ r
      → Answers r
      → Holds st
      → Receives peek (r >>= λ wire. ok (replied wire, st))
  packed peek reply c st (ok wire) e p a h = h
  packed peek reply c st (throw x) e p a h = (reply, c, e, p)
  packed peek reply c st out_of_bounds e p a h = tt
  packed peek reply c st out_of_fuel e p a h = a

  after_cache-Receives :
      (peek : Result (Option DnsMessage × Cache)) (now done : ℕ) (bytes : List ℕ) (st : Served)
      (a : Answer)
      → peek ≡ ok a
      → Holds st
      → PeekHolds a
      → Receives peek (after_cache (resolver upstream fan_out false s now done) bytes st a)
  unfolding after_cache
  after_cache-Receives peek now done bytes st (some reply, c) e (h, l) p =
      packed peek reply c (record st { cache = c }) (pack reply) e refl (pack-Answers reply) (p, l)
  after_cache-Receives peek now done bytes st (none, c) e (h, l) p = settled peek _ (
      offer-Settles (resolver upstream fan_out false s now done c) bytes (record st { cache = c })
        (p, l) (λ req. query-IsBounded upstream fan_out false s now done req c p))

  on_allowed-Receives :
      (now done : ℕ) (bytes : List ℕ) (st : Served) (peek : Result (Option DnsMessage × Cache))
      → peek_cache_raw now s bytes st.cache ≡ peek
      → Settles PeekHolds peek
      → Holds st
      → Receives peek (on_allowed (resolver upstream fan_out false s now done) now s bytes st)
  unfolding on_allowed
  on_allowed-Receives now done bytes st (ok a) e p h =
      rw e (after_cache-Receives (ok a) now done bytes st a refl h p)
  on_allowed-Receives now done bytes st (throw x) e p h = absurd p
  on_allowed-Receives now done bytes st out_of_bounds e p h = rw e tt
  on_allowed-Receives now done bytes st out_of_fuel e p h = absurd p

  -- Let the cache, the queue of refreshes and the queue of the pool be within their bounds before a
  -- call. Whatever the datagram is and the upstream returns or throws, the call runs out of no fuel, and
  -- an exception leaves it only where the cache had an answer for the datagram that `pack` refuses.
  -- Else they are within their bounds after it, unless the parser reads out of bounds.
  pub on_udp_receive-Receives :
      (now done : ℕ) (failed : Bool) (ip bytes : List ℕ) (st : Served)
      → Holds st
      → Receives
          (peek_cache_raw now s bytes (count_query st).cache)
          (on_udp_receive upstream fan_out s now done failed ip bytes st)
  unfolding on_udp_receive
  on_udp_receive-Receives now done true ip bytes st (h, l) = (h, l)
  on_udp_receive-Receives now done false ip bytes st (h, l) =
      elim (Bool-cases (allow now ip st.shards).0) [
        | inr refused ↦ rw refused (h, l)
        | inl passed ↦ rw passed (
            on_allowed-Receives now done bytes
              (count_query (record st { shards = (allow now ip st.shards).1 })) _ refl
              (peek-Settles now s bytes (count_query st).cache h) (h, l))
      ]
