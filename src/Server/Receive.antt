-- ===== src/Server/Receive.antt =====
-- `onUdpReceive` of dns_server.cpp: the datagrams of the main socket. Here only the answer in place of
-- a full pool stands in a `try`, so an exception before it leaves the handler. `now` is the time of the
-- call and `done` that of an upstream's answer; a call that is not left starts the next receive.
pub mod Escapes
use dnss_cpp.Common.{
  ℕ, Bool, false, Called, Option, none, some, List, if◌then◌else◌, Result, ok, throw, out_of_bounds,
  out_of_fuel, ◌>>=◌,
}
use dnss_cpp.Protocol.Message.{DnsMessage}
use dnss_cpp.Protocol.Parse.{parse}
use dnss_cpp.Protocol.Pack.{pack}
use dnss_cpp.Cache.{Cache, Settings}
use dnss_cpp.Cache.Query.{Outcome}
use dnss_cpp.Cache.Peek.{peek_cache_raw}
use dnss_cpp.Server.RateLimiter.{allow}
use dnss_cpp.Server.ThreadPool.{try_enqueue}
use dnss_cpp.Server.Worker.{
  Served, Round, ignored, replied, queued, count_query, count_error, or_serv_fail, caught, resolver,
}

-- The answer is sent, then an error is recorded; an exception is caught, and nothing is sent.
unfoldable pub send_inline : DnsMessage → Served → Result (List ℕ) → Result Round
send_inline reply st (ok wire) = ok (replied wire, count_error reply st)
send_inline reply st (throw e) = ok (ignored, st)
send_inline reply st out_of_bounds = out_of_bounds
send_inline reply st out_of_fuel = out_of_fuel

-- Backpressure: the resolver is asked here, with no fan-out allowed.
unfoldable pub answer_saturated : (DnsMessage → Outcome) → Served → Result DnsMessage → Result Round
answer_saturated ask st (ok req) =
    let (outcome, c) = ask req in
    let message = or_serv_fail req (caught outcome) in
    send_inline message (record st { cache = c }) (pack message)
answer_saturated ask st (throw e) = ok (ignored, st)
answer_saturated ask st out_of_bounds = out_of_bounds
answer_saturated ask st out_of_fuel = out_of_fuel

unfoldable pub offer : (DnsMessage → Outcome) → List ℕ → Served → Result Round
offer ask bytes st =
    let (accepted, pool) = try_enqueue bytes st.pool in
    let inline = answer_saturated ask st (parse bytes) in
    if accepted then ok (queued, record st { pool = pool }) else inline

unfoldable pub after_cache :
    (Cache → DnsMessage → Outcome) → List ℕ → Served → Option DnsMessage × Cache → Result Round
after_cache ask bytes st (some reply, c) = do
  wire ← pack reply
  ok (replied wire, record st { cache = c })
after_cache ask bytes st (none, c) = offer (ask c) bytes (record st { cache = c })

unfoldable pub on_allowed :
    (Cache → DnsMessage → Outcome) → ℕ → Settings → List ℕ → Served → Result Round
on_allowed ask now s bytes st = do
  answer ← peek_cache_raw now s bytes st.cache
  after_cache ask bytes st answer

-- `failed` is an error of the socket, after which there is no datagram.
unfoldable pub on_udp_receive :
    (DnsMessage → Bool → Called (Option DnsMessage))
    → Bool
    → Settings
    → ℕ
    → ℕ
    → Bool
    → List ℕ
    → List ℕ
    → Served
    → Result Round
on_udp_receive upstream fan_out s now done failed ip bytes st =
    let (allowed, shards) = allow now ip st.shards in
    let limited = record st { shards = shards } in
    let round =
      on_allowed (resolver upstream fan_out false s now done) now s bytes (count_query limited) in
    if failed then ok (ignored, st) else if allowed then round else ok (ignored, limited)
