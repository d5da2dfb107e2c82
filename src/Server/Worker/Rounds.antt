-- ===== src/Server/Worker/Rounds.antt =====
-- What a round of `udpWorker` keeps, and when it ends the worker.
use dnss_cpp.Common.{
  ℕ, ◌≤◌, ◌≡◌, Bool, true, false, Option, none, some, List, [], ◌∷◌, arith, length, length-append,
  Result, ok, throw, out_of_bounds, out_of_fuel, Called, ◌<◌, ◌⊎◌, ◌>>=◌, Answers, Returns, Error,
}
use dnss_cpp.Protocol.Words.{read_u16}
use dnss_cpp.Protocol.Words.ReadBack.{read_u16_below}
use dnss_cpp.Protocol.Message.{DnsMessage, DnsQuestion}
use dnss_cpp.Protocol.Parse.{parse}
use dnss_cpp.Protocol.Pack.{pack}
use dnss_cpp.Cache.{Cache, Settings, key_of}
use dnss_cpp.Cache.Turbo.{turbo_insert, count_turbo}
use dnss_cpp.Cache.Query.{Answer, enqueue_refresh}
use dnss_cpp.Cache.Query.Bounded.{IsBounded}
use dnss_cpp.Cache.Peek.{peek_turbo, raw_question, raw_lookup, peek_cache_raw}
use dnss_cpp.Cache.Peek.Wire.{raw_question-Returns}
use dnss_cpp.Server.RateLimiter.{allow}
use dnss_cpp.Server.ThreadPool.{Pool, try_enqueue}
use dnss_cpp.Server.HandleQuery.Answers.{Settles}
use dnss_cpp.Server.Worker.{
  Served, Round, Action, ignored, replied, queued, worker_ended, answer_inline, to_pool, after_peek,
  admitted, on_datagram, count_query,
}

raw_lookup-IsBounded :
    (now : ℕ) (s : Settings) (id : ℕ) (q : DnsQuestion) (c : Cache)
    → IsBounded c
    → IsBounded (raw_lookup now s id q c).1
unfolding raw_lookup peek_turbo turbo_insert count_turbo enqueue_refresh
raw_lookup-IsBounded now s id q c (b, m, k) = ground (
  arith,
  b,
  m,
  k,
  length-append c.stale_refresh_queue (record { key = key_of q; question = q } ∷ []),
)

-- The cache is within its bounds, and the queue of the pool within its limit.
abbrev pub Holds : Served → Type 0
Holds st = IsBounded st.cache × (length st.pool.tasks ≤ st.pool.backpressure_limit)

abbrev pub RoundHolds : Round → Type 0
RoundHolds (a, st) = Holds st

-- A reply that is sent is a message, packed; the pool takes a task only if it has room; and only an
-- exception of `parse` at the datagram or of `pack` at a reply ends the worker.
abbrev pub Acts : List ℕ → Pool (List ℕ) → Action → Type 0
Acts bytes pool ignored = ⊥
Acts bytes pool (replied wire) = (reply : DnsMessage) × (pack reply ≡ ok wire)
Acts bytes pool queued = length pool.tasks < pool.backpressure_limit
Acts bytes pool worker_ended =
    (e : Error) × ((parse bytes ≡ throw e) ⊎ ((reply : DnsMessage) × (pack reply ≡ throw e)))

-- A round for a datagram that is let in.
abbrev pub Admitted : List ℕ → Pool (List ℕ) → Round → Type 0
Admitted bytes pool (a, st) = Holds st × Acts bytes pool a

-- A datagram is passed over if it is short, or its client has sent too many.
abbrev pub Rounds : Bool → List ℕ → Pool (List ℕ) → Round → Type 0
Rounds allowed bytes pool (ignored, st) = Holds st × ((length bytes < 12) ⊎ (allowed ≡ false))
Rounds allowed bytes pool (replied wire, st) = Holds st × Acts bytes pool (replied wire)
Rounds allowed bytes pool (queued, st) = Holds st × Acts bytes pool queued
Rounds allowed bytes pool (worker_ended, st) = Holds st × Acts bytes pool worker_ended

abbrev pub PeekHolds : Answer → Type 0
PeekHolds (r, c) = IsBounded c

pub peek_cache_raw-Settles :
    (now : ℕ) (s : Settings) (bytes : List ℕ) (c : Cache)
    → 12 ≤ length bytes
    → IsBounded c
    → Settles PeekHolds (peek_cache_raw now s bytes c)
unfolding peek_cache_raw
peek_cache_raw-Settles now s bytes c size h =
    by_question (raw_question bytes) (raw_question-Returns bytes)
  where
    by_question :
        (r : Result (Option DnsQuestion))
        → Returns r
        → Settles PeekHolds (
            r >>= λ o. elim o [
              | none ↦ ok (none, c)
              | some q ↦ (read_u16 bytes 0 >>= λ id. ok (raw_lookup now s id q c))
            ])
    by_question (ok none) a = h
    by_question (ok (some q)) a =
        let (id, e) = read_u16_below bytes 0 (omega arith) in
        rw e (raw_lookup-IsBounded now s id q c h)
    by_question (throw e) a = absurd a
    by_question out_of_bounds a = absurd a
    by_question out_of_fuel a = absurd a

module _ (upstream : DnsMessage → Bool → Called (Option DnsMessage)) (fan_out : Bool)
    (s : Settings) where
  -- A datagram of at least 12 bytes from a client within its limit, that the cache does not answer and
  -- that does not parse, ends the worker when the queue of the pool is full.
  pub on_datagram-worker_ended :
      (now done : ℕ) (ip bytes : List ℕ) (st : Served) (c : Cache) (e : Error)
      → 12 ≤ length bytes
      → (allow now ip st.shards).0 ≡ true
      → peek_cache_raw now s bytes st.cache ≡ ok (none, c)
      → st.pool.backpressure_limit ≤ length st.pool.tasks
      → parse bytes ≡ throw e
      → on_datagram upstream fan_out s now done ip bytes st
        ≡ ok (
          worker_ended,
          count_query (record st { shards = (allow now ip st.shards).1; cache = c }),
        )
  unfolding on_datagram admitted after_peek to_pool try_enqueue answer_inline
  on_datagram-worker_ended now done ip bytes st c e size a p full x = ground (arith, a, p, x)
