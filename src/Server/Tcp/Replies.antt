-- ===== src/Server/Tcp/Replies.antt =====
-- What is sent on a connection, and that no exception leaves its handlers.
use dnss_cpp.Common.{
  ℕ, ◌≤◌, ◌≡◌, ◌⊎◌, refl, ap, ◌∙◌, ◌>>=◌, Called, returned, thrown, Bool, true, Option, none, some,
  List, [], ◌∷◌, leb, ltb, length, length-take, length-append, take, drop, arith, Result, ok, throw,
  out_of_bounds, out_of_fuel, Answers, Ends, Error, Bool-cases, inl, inr,
}
use dnss_cpp.Protocol.Words.ReadBack.{read_u16_below}
use dnss_cpp.Protocol.Message.{DnsMessage, serv_fail, create_error}
use dnss_cpp.Protocol.Parse.{parse}
use dnss_cpp.Protocol.Parse.Safety.{parse-Ends}
use dnss_cpp.Protocol.Pack.{pack}
use dnss_cpp.Protocol.Pack.Safety.{pack-Answers}
use dnss_cpp.Cache.{Cache, Settings}
use dnss_cpp.Cache.Query.{Answer, Outcome}
use dnss_cpp.Cache.Query.Bounded.{IsBounded, query-IsBounded}
use dnss_cpp.Cache.Peek.{peek_cache_raw}
use dnss_cpp.Server.HandleQuery.Answers.{Settles, Settles->>=}
use dnss_cpp.Server.ThreadPool.{Pool, try_enqueue}
use dnss_cpp.Server.Worker.{resolver, or_serv_fail}
use dnss_cpp.Server.Worker.Rounds.{PeekHolds}
use dnss_cpp.Server.Receive.Escapes.{peek-Settles}
use dnss_cpp.Server.Tcp.{
  read_exactly, accepted, read_body, read_request, frame, framed_or_none, failure,
  framed_or_failure, framed_reply, or_error, job_reply, run_job, dispatch, on_connection,
}

-- What is sent is a frame; nothing is sent only where SERVFAIL cannot be packed.
abbrev pub Sends : DnsMessage → Option (List ℕ) → Type 0
Sends msg (some bytes) = (wire : List ℕ) × (bytes ≡ frame wire)
Sends msg none = (e : Error) × (pack (create_error msg serv_fail) ≡ throw e)

failed-Sends :
    (msg : DnsMessage) (r : Result (List ℕ))
    → pack (create_error msg serv_fail) ≡ r
    → Answers r
    → Settles (Sends msg) (framed_or_none r)
unfolding framed_or_none
failed-Sends msg (ok wire) e a = (wire, refl)
failed-Sends msg (throw x) e a = (x, e)
failed-Sends msg out_of_bounds e a = tt
failed-Sends msg out_of_fuel e a = a

failure-Sends : (msg : DnsMessage) → Settles (Sends msg) (failure msg)
failure-Sends msg =
    let reply = create_error msg serv_fail in
    failed-Sends msg (pack reply) refl (pack-Answers reply)

-- A reply cannot be sent: the resolver threw, or `pack` throws at it.
abbrev pub Fails : Called DnsMessage → Type 0
Fails thrown = Unit
Fails (returned reply) = (e : Error) × (pack reply ≡ throw e)

-- What is sent is the frame of the reply, or that of SERVFAIL where the reply cannot be sent; and nothing
-- where neither can be.
abbrev pub Delivers : DnsMessage → Called DnsMessage → Option (List ℕ) → Type 0
Delivers msg r (some bytes) =
    (wire : List ℕ) × (bytes ≡ frame wire)
    × (((reply : DnsMessage) × (r ≡ returned reply) × (pack reply ≡ ok wire))
        ⊎ (Fails r × (pack (create_error msg serv_fail) ≡ ok wire)))
Delivers msg r none = Fails r × ((e : Error) × (pack (create_error msg serv_fail) ≡ throw e))

failure-Delivers :
    (msg : DnsMessage) (r : Called DnsMessage) (w : Result (List ℕ))
    → pack (create_error msg serv_fail) ≡ w
    → Answers w
    → Fails r
    → Settles (Delivers msg r) (framed_or_none w)
unfolding framed_or_none
failure-Delivers msg r (ok wire) e a f = (wire, refl, inr (f, e))
failure-Delivers msg r (throw x) e a f = (f, (x, e))
failure-Delivers msg r out_of_bounds e a f = tt
failure-Delivers msg r out_of_fuel e a f = a

packed-Delivers :
    (msg reply : DnsMessage) (w : Result (List ℕ))
    → pack reply ≡ w
    → Answers w
    → Settles (Delivers msg (returned reply)) (framed_or_failure msg w)
unfolding framed_or_failure
packed-Delivers msg reply (ok wire) e a = (wire, refl, inl (reply, refl, e))
packed-Delivers msg reply (throw x) e a =
    let error = create_error msg serv_fail in
    failure-Delivers msg (returned reply) (pack error) refl (pack-Answers error) (x, e)
packed-Delivers msg reply out_of_bounds e a = tt
packed-Delivers msg reply out_of_fuel e a = a

framed_reply-Delivers :
    (msg : DnsMessage) (r : Called DnsMessage) → Settles (Delivers msg r) (framed_reply msg r)
unfolding framed_reply
framed_reply-Delivers msg (returned reply) =
    packed-Delivers msg reply (pack reply) refl (pack-Answers reply)
framed_reply-Delivers msg thrown =
    let error = create_error msg serv_fail in
    failure-Delivers msg thrown (pack error) refl (pack-Answers error) tt

-- The answer of the cache, or what the resolver says, with SERVFAIL where it says nothing.
abbrev pub JobReply :
    (Cache → DnsMessage → Outcome) → DnsMessage → Answer → Called DnsMessage → Type 0
JobReply ask msg (some cached, c) r = r ≡ returned cached
JobReply ask msg (none, c) r =
    ((reply : DnsMessage) × ((ask c msg).0 ≡ returned (some reply)) × (r ≡ returned reply))
    ⊎ (((ask c msg).0 ≡ returned none) × (r ≡ returned (create_error msg serv_fail)))
    ⊎ (((ask c msg).0 ≡ thrown) × (r ≡ thrown))

-- The outcome of a job for `msg`.
abbrev pub Serves :
    (Cache → DnsMessage → Outcome) → Result Answer → DnsMessage → Option (List ℕ) × Cache → Type 0
Serves ask peek msg (sent, c) =
    ((a : Answer) × (peek ≡ ok a)
      × ((r : Called DnsMessage) × JobReply ask msg a r × Delivers msg r sent))
    × IsBounded c

job_reply-JobReply :
    (ask : Cache → DnsMessage → Outcome) (msg : DnsMessage) (a : Answer)
    → JobReply ask msg a (job_reply ask msg a).0
unfolding job_reply
job_reply-JobReply ask msg (some cached, c) = refl
job_reply-JobReply ask msg (none, c) = said (ask c msg).0 refl
  where
    said :
        (r : Called (Option DnsMessage))
        → (ask c msg).0 ≡ r
        → JobReply ask msg (none, c) (or_error msg (ask c msg).0)
    said (returned (some reply)) e =
        inl (reply, e, ap (or_error msg) e ∙ unfold or_error in unfold or_serv_fail in refl)
    said (returned none) e =
        inr (inl (e, ap (or_error msg) e ∙ unfold or_error in unfold or_serv_fail in refl))
    said thrown e = inr (inr (e, ap (or_error msg) e ∙ unfold or_error in refl))

module _ (upstream : DnsMessage → Bool → Called (Option DnsMessage)) (fan_out : Bool)
    (s : Settings) where
  job_reply-IsBounded :
      (now done : ℕ) (msg : DnsMessage) (a : Answer)
      → PeekHolds a
      → IsBounded (job_reply (resolver upstream fan_out true s now done) msg a).1
  unfolding job_reply
  job_reply-IsBounded now done msg (some reply, c) h = h
  job_reply-IsBounded now done msg (none, c) h =
      query-IsBounded upstream fan_out true s now done msg c h

  job_from :
      (now done : ℕ) (msg : DnsMessage) (peek : Result Answer)
      → Settles PeekHolds peek
      → Settles (Serves (resolver upstream fan_out true s now done) peek msg) (do
        answer ← peek
        sent ← framed_reply msg (job_reply (resolver upstream fan_out true s now done) msg answer).0
        ok (sent, (job_reply (resolver upstream fan_out true s now done) msg answer).1))
  job_from now done msg (ok a) p =
      let ask = resolver upstream fan_out true s now done in
      let reply = job_reply ask msg a in
      Settles->>= (Delivers msg reply.0) (Serves ask (ok a) msg) (framed_reply msg reply.0) _
        (framed_reply-Delivers msg reply.0)
        (λ sent w. (
          (a, refl, (reply.0, job_reply-JobReply ask msg a, w)),
          job_reply-IsBounded now done msg a p,
        ))
  job_from now done msg (throw e) p = p
  job_from now done msg out_of_bounds p = tt
  job_from now done msg out_of_fuel p = p

  -- Let the cache be within its bounds before a job, and so be it after. Whatever the request is and the
  -- upstream returns or throws, no exception leaves the job and no loop of it runs for ever. What it
  -- sends is the frame of its reply, which is the answer of the cache, or else what the resolver says,
  -- with SERVFAIL if that is nothing; where the resolver throws or the reply cannot be packed, it is the
  -- frame of SERVFAIL, and nothing is sent only where that cannot be packed either. The length in a frame
  -- is that of the message modulo 2^16. A read out of bounds of the parser of an upstream is not covered.
  pub run_job-Serves :
      (now done : ℕ) (bytes : List ℕ) (msg : DnsMessage) (c : Cache)
      → IsBounded c
      → Settles
          (Serves (resolver upstream fan_out true s now done) (peek_cache_raw now s bytes c) msg)
          (run_job (resolver upstream fan_out true s now done) now s (bytes, msg) c)
  unfolding run_job
  run_job-Serves now done bytes msg c h =
      job_from now done msg (peek_cache_raw now s bytes c) (peek-Settles now s bytes c h)

abbrev Settled : {A : Type 0} → Result A → Type 0
Settled r = Settles (λ _. Unit {0}) r

accepted-Settled : (buf : List ℕ) (r : Result DnsMessage) → Ends r → Settled (accepted buf r)
unfolding accepted
accepted-Settled buf (ok msg) e = tt
accepted-Settled buf (throw x) e = tt
accepted-Settled buf out_of_bounds e = tt
accepted-Settled buf out_of_fuel e = e

read_body-Settled : (len : ℕ) (rest : List ℕ) → Settled (read_body len rest)
unfolding read_body read_exactly
read_body-Settled len rest = elim (Bool-cases (ltb len 12)) [
  | inl short ↦ rw short tt
  | inr header ↦ rw header (elim (Bool-cases (ltb (length rest) len)) [
    | inl short ↦ rw short tt
    | inr long ↦
        rw long
          (accepted-Settled (take len rest) (parse (take len rest)) (parse-Ends (take len rest)))
  ])
]

read_request-Settled : (stream : List ℕ) → Settled (read_request stream)
unfolding read_request read_exactly
read_request-Settled stream = elim (Bool-cases (ltb (length stream) 2)) [
  | inl short ↦ rw (read_request, short) tt
  | inr long ↦
      rw (read_request, long)
        (let (len, e) =
            read_u16_below (take 2 stream) 0 (ground (arith, long, length-take 2 stream)) in
          rw e (read_body-Settled len (drop 2 stream)))
]

-- What the accept loop sends itself, with the pool after it: something only where the queue was full.
abbrev pub Dispatches :
    Pool (List ℕ × DnsMessage) → Option (List ℕ) × Pool (List ℕ × DnsMessage) → Type 0
Dispatches pool (none, after) = length after.tasks ≤ after.backpressure_limit
Dispatches pool (some bytes, after) =
    (after ≡ pool)
    × (pool.backpressure_limit ≤ length pool.tasks)
    × ((wire : List ℕ) × (bytes ≡ frame wire))

dispatch-Dispatches :
    (pool : Pool (List ℕ × DnsMessage)) (request : Option (List ℕ × DnsMessage))
    → length pool.tasks ≤ pool.backpressure_limit
    → Settles (Dispatches pool) (dispatch pool request)
unfolding dispatch try_enqueue
dispatch-Dispatches pool none h = h
dispatch-Dispatches pool (some (bytes, msg)) h =
    elim (Bool-cases (leb pool.backpressure_limit (length pool.tasks))) [
      | inl full ↦ rw full (
          Settles->>= (Sends msg) (Dispatches pool) (failure msg) _ (failure-Sends msg)
            (λ sent w. refused sent w (ground (arith, full))))
      | inr room ↦ rw room (ground (arith, room, length-append pool.tasks ((bytes, msg) ∷ [])))
    ]
  where
    refused :
        (sent : Option (List ℕ))
        → Sends msg sent
        → pool.backpressure_limit ≤ length pool.tasks
        → Dispatches pool (sent, pool)
    refused none w full = h
    refused (some reply) (wire, e) full = (refl, full, (wire, e))

-- Whatever a client sends, the accept loop gets no exception from it and ends with the connection. The
-- queue of the pool stays within its limit; the loop answers itself, with a frame, only where the
-- queue was full, and then leaves the pool alone. The parser may read out of bounds.
pub on_connection-Dispatches :
    (stream : List ℕ) (pool : Pool (List ℕ × DnsMessage))
    → length pool.tasks ≤ pool.backpressure_limit
    → Settles (Dispatches pool) (on_connection stream pool)
unfolding on_connection
on_connection-Dispatches stream pool h =
    Settles->>= (λ _. Unit {0}) (Dispatches pool) (read_request stream) _
      (read_request-Settled stream) (λ request u. dispatch-Dispatches pool request h)
