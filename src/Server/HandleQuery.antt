-- ===== src/Server/HandleQuery.antt =====
-- `handleQuery` and `udpQueryRaw` of dns_server.cpp. The resolver behind the server is the function
-- `ask` on its state, and `exchange` is what the sockets do with a host, a port and a request: the
-- bytes of an answer, or nothing. `errors` are the calls of `recordError`.
pub mod Answers
pub mod Local
use dnss_cpp.Common.{
  ℕ, ◌+◌, ◌-◌, Bool, true, false, Option, none, some, List, [], ◌∷◌, ltb, if◌then◌else◌, length,
  drop, Called, returned, thrown, Result, ok, throw, out_of_bounds, out_of_fuel, ◌>>=◌,
}
use dnss_cpp.Common.Text.{text_eq, split_at}
use dnss_cpp.Protocol.Message.{DnsMessage, DnsQuestion, serv_fail, nx_domain, create_error}
use dnss_cpp.Protocol.Parse.{parse}
use dnss_cpp.Protocol.Pack.{pack}
use dnss_cpp.DomainMap.{DomainMap, get_most_specific}
use dnss_cpp.Cache.Policy.{is_empty}

abbrev pub local_suffix : List ℕ
local_suffix = b'.' ∷ b'l' ∷ b'o' ∷ b'c' ∷ b'a' ∷ b'l' ∷ []

unfoldable pub is_local_name : List ℕ → Bool
is_local_name name =
    if ltb (length name) (length local_suffix)
    then false
    else text_eq (drop (length name - length local_suffix) name) local_suffix

-- Host and port of an address; the port is 53 if there is no colon.
unfoldable pub split_port : List ℕ × Option (List ℕ) → List ℕ × List ℕ
split_port (host, none) = (host, b'5' ∷ b'3' ∷ [])
split_port (host, some port) = (host, port)

-- A name with no dot, or with one only.
unfoldable pub is_unqualified : List ℕ → Bool
is_unqualified name = elim (split_at b'.' name).1 [
  | none ↦ true
  | some rest ↦ elim (split_at b'.' rest).1 [ none ↦ true | some more ↦ is_empty rest ]
]

abbrev pub with_id : ℕ → DnsMessage → DnsMessage
with_id id m = record m { header = record (m.header) { id = id } }

abbrev pub Exchange : Type 0
Exchange = List ℕ → List ℕ → List ℕ → Option (List ℕ)

-- What came back is parsed, and gets the identifier of the request.
unfoldable pub received : ℕ → Option (List ℕ) → Result (Option DnsMessage)
received id none = ok none
received id (some response) =
    if ltb (length response) 12 then ok none else do m ← parse response; ok (some (with_id id m))

unfoldable pub udp_query_raw : Exchange → List ℕ × List ℕ → List ℕ → ℕ → Result (Option DnsMessage)
udp_query_raw exchange (host, port) wire id = received id (exchange host port wire)

-- The `try` around a request to another server: no answer and an exception are SERVFAIL and an error.
unfoldable pub forwarded : DnsMessage → Result (Option DnsMessage) → Result (DnsMessage × ℕ)
forwarded req (ok (some reply)) = ok (reply, 0)
forwarded req (ok none) = ok (create_error req serv_fail, 1)
forwarded req (throw e) = ok (create_error req serv_fail, 1)
forwarded req out_of_bounds = out_of_bounds
forwarded req out_of_fuel = out_of_fuel

unfoldable pub forward : Exchange → DnsMessage → List ℕ → Result (DnsMessage × ℕ)
forward exchange req address = forwarded req (do
  wire ← pack req
  udp_query_raw exchange (split_port (split_at b':' address)) wire req.header.id)

module _ {State : Type 0} (ask : DnsMessage → State → Called (Option DnsMessage) × State) where
  -- The reply or an exception, the state of the resolver, and the errors.
  abbrev pub Reply : Type 0
  Reply = Called DnsMessage × State × ℕ

  -- `if (!reply) reply = createError(SERVFAIL)`
  unfoldable pub or_failure : DnsMessage → Called (Option DnsMessage) × State → Result Reply
  or_failure req (returned none, st) = ok (returned (create_error req serv_fail), st, 0)
  or_failure req (returned (some reply), st) = ok (returned reply, st, 0)
  or_failure req (thrown, st) = ok (thrown, st, 0)

  unfoldable pub forward_to : Exchange → DnsMessage → List ℕ → State → Result Reply
  forward_to exchange req address st = do
    (reply, errors) ← forward exchange req address
    ok (returned reply, st, errors)

  -- No override applies: a name without dots goes to the upstream for such names, if there is one.
  unfoldable pub resolve : Exchange → List ℕ → DnsMessage → DnsQuestion → State → Result Reply
  resolve exchange [] req q st = or_failure req (ask req st)
  resolve exchange (u ∷ us) req q st =
      if is_unqualified q.qname
      then forward_to exchange req (u ∷ us) st
      else or_failure req (ask req st)

  unfoldable pub reply_to :
      Exchange → DomainMap → List ℕ → DnsMessage → DnsQuestion → State → Result Reply
  reply_to exchange overrides unq req q st =
      if is_local_name q.qname
      then ok (returned (create_error req nx_domain), st, 0)
      else elim (get_most_specific q.qname overrides) [
        | some address ↦ forward_to exchange req address st
        | none ↦ resolve exchange unq req q st
      ]

  -- What is sent, if anything: an exception is logged.
  abbrev pub Outcome : Type 0
  Outcome = Option (List ℕ) × State × ℕ

  unfoldable pub sent : State → ℕ → Result (List ℕ) → Result Outcome
  sent st errors (ok wire) = ok (some wire, st, errors)
  sent st errors (throw e) = ok (none, st, errors)
  sent st errors out_of_bounds = out_of_bounds
  sent st errors out_of_fuel = out_of_fuel

  -- An exception of the resolver is caught by the `try` around all of it.
  unfoldable pub pack_reply : Reply → Result Outcome
  pack_reply (returned reply, st, errors) = sent st errors (pack reply)
  pack_reply (thrown, st, errors) = ok (none, st, errors)

  unfoldable pub reply_on :
      Exchange → DomainMap → List ℕ → DnsMessage → List DnsQuestion → State → Result Outcome
  reply_on exchange overrides unq req [] st = ok (none, st, 0)
  reply_on exchange overrides unq req (q ∷ qs) st = do
    reply ← reply_to exchange overrides unq req q st
    pack_reply reply

  unfoldable pub handled :
      Exchange → DomainMap → List ℕ → Result DnsMessage → State → Result Outcome
  handled exchange overrides unq (ok req) st = reply_on exchange overrides unq req req.questions st
  handled exchange overrides unq (throw e) st = ok (none, st, 0)
  handled exchange overrides unq out_of_bounds st = out_of_bounds
  handled exchange overrides unq out_of_fuel st = out_of_fuel

  unfoldable pub handle_query : Exchange → DomainMap → List ℕ → List ℕ → State → Result Outcome
  handle_query exchange overrides unq bytes st = handled exchange overrides unq (parse bytes) st
