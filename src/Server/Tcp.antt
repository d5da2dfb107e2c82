-- ===== src/Server/Tcp.antt =====
-- `tcpAcceptLoop` of dns_server.cpp: one connection, and the job of the pool that answers it. A stream
-- is the bytes that the client sends until it closes; a write that fails is not modelled.
pub mod Frames
pub mod Replies
pub mod Runs
use dnss_cpp.Common.{
  ℕ, Called, returned, thrown, ◌+◌, ◌%◌, Bool, Option, none, some, List, [], ◌∷◌, ◌++◌, ltb,
  if◌then◌else◌, length, take, drop, Result, ok, throw, out_of_bounds, out_of_fuel, ◌>>=◌,
}
use dnss_cpp.Protocol.Words.{read_u16, write_u16}
use dnss_cpp.Protocol.Message.{DnsMessage, serv_fail, create_error}
use dnss_cpp.Protocol.Parse.{parse}
use dnss_cpp.Protocol.Pack.{pack}
use dnss_cpp.Cache.{Cache, Settings}
use dnss_cpp.Cache.Query.{Answer, Outcome}
use dnss_cpp.Cache.Peek.{peek_cache_raw}
use dnss_cpp.Server.ThreadPool.{Pool, try_enqueue}
use dnss_cpp.Server.Worker.{or_serv_fail}

-- `asio::read` of `n` bytes: they and the rest, or an exception if the stream ends before.
unfoldable pub read_exactly : ℕ → List ℕ → Option (List ℕ × List ℕ)
read_exactly n stream = if ltb (length stream) n then none else some (take n stream, drop n stream)

-- A request that parses and has a question, with its bytes. An exception closes the connection.
unfoldable pub accepted : List ℕ → Result DnsMessage → Result (Option (List ℕ × DnsMessage))
accepted buf (ok msg) = ok (elim msg.questions [ [] ↦ none | q ∷ qs ↦ some (buf, msg) ])
accepted buf (throw e) = ok none
accepted buf out_of_bounds = out_of_bounds
accepted buf out_of_fuel = out_of_fuel

unfoldable pub read_body : ℕ → List ℕ → Result (Option (List ℕ × DnsMessage))
read_body len stream = if ltb len 12 then ok none else elim (read_exactly len stream) [
  | none ↦ ok none
  | some (buf, rest) ↦ accepted buf (parse buf)
]

unfoldable pub read_request : List ℕ → Result (Option (List ℕ × DnsMessage))
read_request stream = elim (read_exactly 2 stream) [
  | none ↦ ok none
  | some (prefix, rest) ↦ do len ← read_u16 prefix 0; read_body len rest
]

-- What is written for a reply: its length on 16 bits, and its bytes.
unfoldable pub frame : List ℕ → List ℕ
frame wire = write_u16 (length wire % 65536) ++ wire

-- The SERVFAIL of a handler: nothing is sent if `pack` throws again.
unfoldable pub framed_or_none : Result (List ℕ) → Result (Option (List ℕ))
framed_or_none (ok wire) = ok (some (frame wire))
framed_or_none (throw e) = ok none
framed_or_none out_of_bounds = out_of_bounds
framed_or_none out_of_fuel = out_of_fuel

abbrev pub failure : DnsMessage → Result (Option (List ℕ))
failure msg = framed_or_none (pack (create_error msg serv_fail))

unfoldable pub framed_or_failure : DnsMessage → Result (List ℕ) → Result (Option (List ℕ))
framed_or_failure msg (ok wire) = ok (some (frame wire))
framed_or_failure msg (throw e) = failure msg
framed_or_failure msg out_of_bounds = out_of_bounds
framed_or_failure msg out_of_fuel = out_of_fuel

-- `if (!reply) reply = createError(SERVFAIL)`
unfoldable pub or_error : DnsMessage → Called (Option DnsMessage) → Called DnsMessage
or_error msg (returned reply) = returned (or_serv_fail msg reply)
or_error msg thrown = thrown

-- The cached answer, or what the resolver says.
unfoldable pub job_reply :
    (Cache → DnsMessage → Outcome) → DnsMessage → Answer → Called DnsMessage × Cache
job_reply ask msg (some reply, c) = (returned reply, c)
job_reply ask msg (none, c) = let (reply, after) = ask c msg in (or_error msg reply, after)

-- The reply, packed; an exception is answered with the SERVFAIL of the handler.
unfoldable pub framed_reply : DnsMessage → Called DnsMessage → Result (Option (List ℕ))
framed_reply msg (returned reply) = framed_or_failure msg (pack reply)
framed_reply msg thrown = failure msg

-- The task of the pool: what is sent, and the cache.
unfoldable pub run_job :
    (Cache → DnsMessage → Outcome)
    → ℕ
    → Settings
    → List ℕ × DnsMessage
    → Cache
    → Result (Option (List ℕ) × Cache)
run_job ask now s (bytes, msg) c = do
  answer ← peek_cache_raw now s bytes c
  sent ← framed_reply msg (job_reply ask msg answer).0
  ok (sent, (job_reply ask msg answer).1)

-- What the accept loop does itself with a connection: what it sends at once, and the pool.
unfoldable pub dispatch :
    Pool (List ℕ × DnsMessage)
    → Option (List ℕ × DnsMessage)
    → Result (Option (List ℕ) × Pool (List ℕ × DnsMessage))
dispatch pool none = ok (none, pool)
dispatch pool (some (bytes, msg)) =
    let (queued, after) = try_enqueue (bytes, msg) pool in
    let saturated = (do sent ← failure msg; ok (sent, pool)) in
    if queued then ok (none, after) else saturated

unfoldable pub on_connection :
    List ℕ → Pool (List ℕ × DnsMessage) → Result (Option (List ℕ) × Pool (List ℕ × DnsMessage))
on_connection stream pool = do request ← read_request stream; dispatch pool request
