-- ===== src/System/Asked.antt =====
-- What the servers say that system_resolver.cpp asks over UDP and HTTPS.
use dnss_cpp.Common.{
  ℕ, ◌≡◌, refl, Option, none, some, List, [], ◌∷◌, ltb, length, Result, ok, throw, out_of_bounds,
  out_of_fuel, ◌>>=◌, Answers, Ends, Bool-cases, inl, inr,
}
use dnss_cpp.Protocol.Message.{DnsMessage}
use dnss_cpp.Protocol.Parse.{parse}
use dnss_cpp.Protocol.Parse.Safety.{parse-Ends}
use dnss_cpp.Protocol.Pack.{pack}
use dnss_cpp.Protocol.Pack.Safety.{pack-Answers}
use dnss_cpp.Server.HandleQuery.Answers.{HasId}
use dnss_cpp.System.{or_next, on_answer, ask_servers, query_servers, query_udp}

-- What the servers say: every exception is caught.
abbrev Heard : ℕ → Result (Option DnsMessage) → Type 0
Heard id (ok none) = Unit
Heard id (ok (some m)) = HasId id m
Heard id (throw e) = ⊥
Heard id out_of_bounds = Unit
Heard id out_of_fuel = ⊥

or_next-Heard :
    (id : ℕ) (r : Result DnsMessage) (next : Result (Option DnsMessage))
    → Ends r
    → Heard id next
    → Heard id (or_next id r next)
unfolding or_next
or_next-Heard id (ok m) next e h = refl
or_next-Heard id (throw x) next e h = h
or_next-Heard id out_of_bounds next e h = tt
or_next-Heard id out_of_fuel next e h = e

on_answer-Heard :
    (id : ℕ) (o : Option (List ℕ)) (next : Result (Option DnsMessage))
    → Heard id next
    → Heard id (on_answer id o next)
unfolding on_answer
on_answer-Heard id none next h = h
on_answer-Heard id (some answer) next h = elim (Bool-cases (ltb (length answer) 12)) [
  | inl short ↦ rw short h
  | inr long ↦ rw long (or_next-Heard id (parse answer) next (parse-Ends answer) h)
]

ask_servers-Heard :
    (ask : List ℕ → Option (List ℕ)) (id : ℕ) (servers : List (List ℕ))
    → Heard id (ask_servers ask id servers)
unfolding ask_servers
ask_servers-Heard ask id [] = tt
ask_servers-Heard ask id (server ∷ servers) =
    on_answer-Heard id (ask server) (ask_servers ask id servers) (ask_servers-Heard ask id servers)

-- What servers answer: under the identifier, and an exception is that of `pack` at the request.
abbrev pub Asked : DnsMessage → Result (Option DnsMessage) → Type 0
Asked req (ok none) = Unit
Asked req (ok (some m)) = HasId req.header.id m
Asked req (throw e) = pack req ≡ throw e
Asked req out_of_bounds = Unit
Asked req out_of_fuel = ⊥

pub query_servers-Asked :
    (exchange : List ℕ → List ℕ → Option (List ℕ)) (servers : List (List ℕ)) (req : DnsMessage)
    → Asked req (query_servers exchange servers req)
unfolding query_servers
query_servers-Asked exchange servers req = packed (pack req) refl (pack-Answers req)
  where
    heard : (r : Result (Option DnsMessage)) → Heard req.header.id r → Asked req r
    heard (ok none) h = tt
    heard (ok (some m)) h = h
    heard (throw x) h = absurd h
    heard out_of_bounds h = tt
    heard out_of_fuel h = h

    packed :
        (r : Result (List ℕ))
        → pack req ≡ r
        → Answers r
        → Asked req
            (r >>= λ wire. ask_servers (λ server. exchange server wire) req.header.id servers)
    packed (ok wire) e a =
        heard _ (ask_servers-Heard (λ server. exchange server wire) req.header.id servers)
    packed (throw x) e a = e
    packed out_of_bounds e a = absurd a
    packed out_of_fuel e a = absurd a

pub query_udp-Asked :
    (exchange : List ℕ → List ℕ → Option (List ℕ)) (servers : List (List ℕ)) (req : DnsMessage)
    → Asked req (query_udp exchange servers req)
unfolding query_udp
query_udp-Asked exchange [] req = tt
query_udp-Asked exchange (server ∷ servers) req =
    query_servers-Asked exchange (server ∷ servers) req
