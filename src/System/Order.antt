-- ===== src/System/Order.antt =====
-- What `SystemResolver::query` answers, and which servers it can do without.
use dnss_cpp.Common.{
  ℕ, ◌≡◌, refl, ap, ◌∙◌, true, ◌||◌, Option, none, some, List, [], ◌∷◌, ◌==◌, arith, Result, ok,
  throw, out_of_bounds, out_of_fuel, ◌>>=◌, Bool-cases, inl, inr,
}
use dnss_cpp.Protocol.Header.{rcode, set_rcode, set_qr, set_ra}
use dnss_cpp.Protocol.Message.{
  DnsMessage, DnsQuestion, DnsResourceRecord, serv_fail, form_err, type_a, type_aaaa, create_reply,
  create_error,
}
use dnss_cpp.Protocol.Pack.{pack}
use dnss_cpp.Server.HandleQuery.Answers.{HasId, create_error-HasId}
use dnss_cpp.System.{
  Family, Network, address_records, query_getaddrinfo, with_addresses, with_found, keep_answered,
  try_getaddrinfo, accept_udp, or_else, query_network, query_question, query,
}
use dnss_cpp.System.Asked.{Asked, query_servers-Asked, query_udp-Asked}

-- The outcome of a query: a reply under the request's identifier.
abbrev pub Resolves : DnsMessage → Result DnsMessage → Type 0
Resolves req (ok m) = HasId req.header.id m
Resolves req (throw e) = pack req ≡ throw e
Resolves req out_of_bounds = Unit
Resolves req out_of_fuel = ⊥

or_else-Resolves :
    (req : DnsMessage) (r : Result (Option DnsMessage)) (next : Result DnsMessage)
    → Asked req r
    → Resolves req next
    → Resolves req (or_else r next)
unfolding or_else
or_else-Resolves req (ok none) next a h = h
or_else-Resolves req (ok (some m)) next a h = a
or_else-Resolves req (throw e) next a h = a
or_else-Resolves req out_of_bounds next a h = a
or_else-Resolves req out_of_fuel next a h = a

accept_udp-Asked :
    (req : DnsMessage) (r : Result (Option DnsMessage))
    → Asked req r
    → Asked req (do reply ← r; ok (accept_udp reply))
unfolding accept_udp
accept_udp-Asked req (ok none) a = tt
accept_udp-Asked req (ok (some m)) a = elim (Bool-cases (rcode m.header == serv_fail)) [
  | inl failed ↦ rw failed tt
  | inr fine ↦ rw fine a
]
accept_udp-Asked req (throw e) a = a
accept_udp-Asked req out_of_bounds a = a
accept_udp-Asked req out_of_fuel a = a

with_addresses-HasId :
    (reply : DnsMessage) (rs : List DnsResourceRecord)
    → HasId reply.header.id (with_addresses reply rs)
unfolding with_addresses set_rcode
with_addresses-HasId reply [] = refl
with_addresses-HasId reply (r ∷ rs) = refl

with_found-HasId :
    (reply : DnsMessage) (q : DnsQuestion) (fs : List (Family × List ℕ))
    → HasId reply.header.id (with_found reply q fs)
unfolding with_found
with_found-HasId reply q [] = refl
with_found-HasId reply q (f ∷ fs) = with_addresses-HasId reply (address_records q (f ∷ fs))

query_getaddrinfo-HasId :
    (lookup : List ℕ → List (Family × List ℕ)) (req : DnsMessage) (q : DnsQuestion)
    → HasId req.header.id (query_getaddrinfo lookup req q)
unfolding query_getaddrinfo create_reply set_ra set_qr
query_getaddrinfo-HasId lookup req q = with_found-HasId (create_reply req) q (lookup q.qname)

-- What is kept of a reply of getaddrinfo is that reply, and only what is known of getaddrinfo changes.
abbrev pub Keeps : DnsMessage → Network → Option DnsMessage × Network → Type 0
Keeps result net (none, after) = after ≡ net
Keeps result net (some reply, after) =
    (reply ≡ result) × (after ≡ record net { getaddrinfo_works = true; getaddrinfo_tested = true })

keep_answered-Keeps :
    (result : DnsMessage) (rs : List DnsResourceRecord) (net : Network)
    → Keeps result net (keep_answered result rs net)
unfolding keep_answered
keep_answered-Keeps result [] net = refl
keep_answered-Keeps result (r ∷ rs) net = ground arith

-- The outcome of a query, with the state after it.
abbrev pub Answered : DnsMessage → Network → Result (DnsMessage × Network) → Type 0
Answered req net (ok (m, after)) =
    HasId req.header.id m
    × (after.servers ≡ net.servers)
    × (after.doh_urls ≡ net.doh_urls)
    × (after.udp_works ≡ net.udp_works)
Answered req net (throw e) = pack req ≡ throw e
Answered req net out_of_bounds = Unit
Answered req net out_of_fuel = ⊥

module _ (lookup : List ℕ → List (Family × List ℕ))
    (exchange post : List ℕ → List ℕ → Option (List ℕ)) where
  query_network-Resolves :
      (req : DnsMessage) (net : Network) → Resolves req (query_network lookup exchange post req net)
  unfolding query_network
  query_network-Resolves req net =
      let udp = query_udp-Asked exchange net.servers req in
      let doh = query_servers-Asked post net.doh_urls req in
      let failed = create_error-HasId req serv_fail in
      elim (Bool-cases net.udp_works) [
        | inl works ↦ rw works (
            or_else-Resolves req _ _ (accept_udp-Asked req _ udp)
              (or_else-Resolves req _ _ doh failed))
        | inr lost ↦ rw lost (or_else-Resolves req _ _ doh (or_else-Resolves req _ _ udp failed))
      ]

  after_network :
      (req : DnsMessage) (net after : Network) (r : Result DnsMessage)
      → after ≡ net
      → Resolves req r
      → Answered req net (do reply ← r; ok (reply, after))
  after_network req net after (ok m) e h =
      (h, ap (λ n. n.servers) e, ap (λ n. n.doh_urls) e, ap (λ n. n.udp_works) e)
  after_network req net after (throw x) e h = h
  after_network req net after out_of_bounds e h = tt
  after_network req net after out_of_fuel e h = h

  try_getaddrinfo-Keeps :
      (req : DnsMessage) (q : DnsQuestion) (net : Network)
      → Keeps (query_getaddrinfo lookup req q) net (try_getaddrinfo lookup req q net)
  unfolding try_getaddrinfo
  try_getaddrinfo-Keeps req q net =
      let result = query_getaddrinfo lookup req q in
      elim (Bool-cases ((q.qtype == type_a) || (q.qtype == type_aaaa))) [
        | inl address ↦ rw address (keep_answered-Keeps result result.answers net)
        | inr other ↦ rw other refl
      ]

  query_question-Answered :
      (req : DnsMessage) (q : DnsQuestion) (net : Network)
      → Answered req net (query_question lookup exchange post req q net)
  unfolding query_question
  query_question-Answered req q net =
      kept (try_getaddrinfo lookup req q net) (try_getaddrinfo-Keeps req q net)
    where
      kept :
          (r : Option DnsMessage × Network)
          → Keeps (query_getaddrinfo lookup req q) net r
          → Answered req net (elim r.0 [
            | some reply ↦ ok (reply, r.1)
            | none ↦ (do reply ← query_network lookup exchange post req net; ok (reply, r.1))
          ])
      kept (none, after) e =
          after_network req net after (query_network lookup exchange post req net) e
            (query_network-Resolves req net)
      kept (some reply, after) (e, f) = (
        ap (λ m. m.header.id) e ∙ query_getaddrinfo-HasId lookup req q,
        ap (λ n. n.servers) f,
        ap (λ n. n.doh_urls) f,
        ap (λ n. n.udp_works) f,
      )

  -- A query ends, whatever getaddrinfo, the name servers and the DoH servers answer, with a reply under
  -- the identifier of the request, and changes only what is known of getaddrinfo. An exception is one
  -- that `pack` throws at the request; the parser may read out of bounds.
  pub query-Answered :
      (req : DnsMessage) (net : Network) → Answered req net (query lookup exchange post req net)
  unfolding query
  query-Answered req net = asked req.questions
    where
      asked :
          (qs : List DnsQuestion)
          → Answered req net (elim qs [
            | [] ↦ ok (create_error req form_err, net)
            | q ∷ rest ↦ query_question lookup exchange post req q net
          ])
      asked [] = (create_error-HasId req form_err, refl, refl, refl)
      asked (q ∷ rest) = query_question-Answered req q net
