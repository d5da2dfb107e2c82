-- ===== src/Server/Worker.antt =====
-- One round of the loop of `udpWorker` in dns_server.cpp, from a datagram to what is done with it. The
-- errors and queries that PerfMonitor counts are in the cache's state. An exception leaves the loop,
-- since the `try` stands around it. `now` is the time of the round and `done` that of an upstream's
-- answer.
pub mod Rounds
use dnss_cpp.Common.{
  ℕ, ◌+◌, Bool, true, false, not, Option, none, some, List, [], ◌∷◌, ltb, ◌==◌, if◌then◌else◌,
  length, Called, returned, thrown, Result, ok, throw, out_of_bounds, out_of_fuel, ◌>>=◌,
}
use dnss_cpp.Protocol.Header.{rcode}
use dnss_cpp.Protocol.Message.{DnsMessage, serv_fail, create_error}
use dnss_cpp.Protocol.Parse.{parse}
use dnss_cpp.Protocol.Pack.{pack}
use dnss_cpp.Perf.{record_dns_query, record_error}
use dnss_cpp.Cache.{Cache, Settings}
use dnss_cpp.Cache.Query.{Answer, Outcome, query}
use dnss_cpp.Cache.Peek.{peek_cache_raw}
use dnss_cpp.Server.RateLimiter.{Shards, allow}
use dnss_cpp.Server.ThreadPool.{Pool, try_enqueue}

-- A task of the pool is a request that waits for `handleQuery`.
pub record Served : Type 0 where
  pub shards : Shards
  pub pool : Pool (List ℕ)
  pub cache : Cache

pub data Action : Type 0 where
  ignored : Action
  replied : List ℕ → Action
  queued : Action
  worker_ended : Action

abbrev pub Round : Type 0
Round = Action × Served

-- `pack` and send.
unfoldable pub send_reply : Served → Result (List ℕ) → Result Round
send_reply st (ok wire) = ok (replied wire, st)
send_reply st (throw e) = ok (worker_ended, st)
send_reply st out_of_bounds = out_of_bounds
send_reply st out_of_fuel = out_of_fuel

abbrev pub count_query : Served → Served
count_query st = record st { cache = record (st.cache) { perf = record_dns_query (st.cache.perf) } }

-- An error is recorded after the reply was sent.
abbrev pub count_error : DnsMessage → Served → Served
count_error reply st =
    if rcode reply.header == 0
    then st
    else record st { cache = record (st.cache) { perf = record_error false (st.cache.perf) } }

unfoldable pub send_counted : DnsMessage → Served → Result (List ℕ) → Result Round
send_counted reply st (ok wire) = ok (replied wire, count_error reply st)
send_counted reply st (throw e) = ok (worker_ended, st)
send_counted reply st out_of_bounds = out_of_bounds
send_counted reply st out_of_fuel = out_of_fuel

unfoldable pub or_serv_fail : DnsMessage → Option DnsMessage → DnsMessage
or_serv_fail req none = create_error req serv_fail
or_serv_fail req (some reply) = reply

-- `try { reply = res->query(*req, false); } catch (...) {}`
unfoldable pub caught : Called (Option DnsMessage) → Option DnsMessage
caught (returned reply) = reply
caught thrown = none

-- The pool is full: the worker asks the resolver itself, with no fan-out allowed.
unfoldable pub answer_inline : (DnsMessage → Outcome) → Served → Result DnsMessage → Result Round
answer_inline ask st (ok req) =
    let (outcome, c) = ask req in
    let message = or_serv_fail req (caught outcome) in
    send_counted message (record st { cache = c }) (pack message)
answer_inline ask st (throw e) = ok (worker_ended, st)
answer_inline ask st out_of_bounds = out_of_bounds
answer_inline ask st out_of_fuel = out_of_fuel

unfoldable pub to_pool : (DnsMessage → Outcome) → List ℕ → Served → Result Round
to_pool ask bytes st =
    let (accepted, pool) = try_enqueue bytes st.pool in
    let inline = answer_inline ask st (parse bytes) in
    if accepted then ok (queued, record st { pool = pool }) else inline

-- The cache is looked at first; a request that it does not answer is counted.
unfoldable pub after_peek :
    (Cache → DnsMessage → Outcome) → List ℕ → Served → Option DnsMessage × Cache → Result Round
after_peek ask bytes st (some reply, c) = send_reply (record st { cache = c }) (pack reply)
after_peek ask bytes st (none, c) =
    let counted = count_query (record st { cache = c }) in to_pool (ask counted.cache) bytes counted

unfoldable pub admitted :
    (Cache → DnsMessage → Outcome) → ℕ → Settings → List ℕ → Served → Result Round
admitted ask now s bytes st = do
  answer ← peek_cache_raw now s bytes st.cache
  after_peek ask bytes st answer

abbrev pub resolver :
    (DnsMessage → Bool → Called (Option DnsMessage))
    → Bool
    → Bool
    → Settings
    → ℕ
    → ℕ
    → Cache
    → DnsMessage
    → Outcome
resolver upstream fan_out allow s now done c req = query upstream fan_out allow s now done req c

unfoldable pub on_datagram :
    (DnsMessage → Bool → Called (Option DnsMessage))
    → Bool
    → Settings
    → ℕ
    → ℕ
    → List ℕ
    → List ℕ
    → Served
    → Result Round
on_datagram upstream fan_out s now done ip bytes st =
    let (allowed, shards) = allow now ip st.shards in
    let counted = record st { shards = shards } in
    let round = admitted (resolver upstream fan_out false s now done) now s bytes counted in
    if ltb (length bytes) 12
    then ok (ignored, st)
    else if allowed
    then round
    else ok (ignored, counted)
