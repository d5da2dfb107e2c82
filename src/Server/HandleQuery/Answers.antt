-- ===== src/Server/HandleQuery/Answers.antt =====
-- What `handleQuery` of dns_server.cpp sends.
use dnss_cpp.Common.{
  ℕ, ◌≡◌, refl, Option, none, some, List, [], ◌∷◌, ltb, length, Result, ok, throw, out_of_bounds,
  out_of_fuel, Called, returned, thrown, ◌>>=◌, Answers, Ends, Option-cases, Bool-cases, inl, inr,
}
use dnss_cpp.Protocol.Header.{set_rcode, set_qr, set_ra}
use dnss_cpp.Protocol.Message.{
  DnsMessage, DnsQuestion, create_error, create_reply, nx_domain, serv_fail,
}
use dnss_cpp.Protocol.Parse.{parse}
use dnss_cpp.Protocol.Parse.Safety.{parse-Ends}
use dnss_cpp.Protocol.Pack.{pack}
use dnss_cpp.Protocol.Pack.Safety.{pack-Answers}
use dnss_cpp.DomainMap.{DomainMap, get_most_specific}
use dnss_cpp.Server.HandleQuery.{
  Exchange, is_local_name, is_unqualified, with_id, received, udp_query_raw, forwarded, forward,
  or_failure, forward_to, resolve, reply_to, sent, pack_reply, reply_on, handled, handle_query,
}

-- Code that ends and lets no exception out, with a postcondition of what it returns. A read out of
-- bounds in the parser is not excluded.
abbrev pub Settles {ℓ} : {A : Type ℓ} → (A → Type 0) → Result A → Type 0
Settles P (ok a) = P a
Settles P (throw e) = ⊥
Settles P out_of_bounds = Unit
Settles P out_of_fuel = ⊥

pub Settles->>= {ℓ κ} :
    {A : Type ℓ} {B : Type κ} (P : A → Type 0) (Q : B → Type 0) (m : Result A) (f : A → Result B)
    → Settles P m
    → ((a : A) → P a → Settles Q (f a))
    → Settles Q (m >>= f)
Settles->>= P Q (ok a) f h k = k a h
Settles->>= P Q (throw e) f h k = absurd h
Settles->>= P Q out_of_bounds f h k = tt
Settles->>= P Q out_of_fuel f h k = absurd h

abbrev pub HasId : ℕ → DnsMessage → Type 0
HasId id m = m.header.id ≡ id

pub create_error-HasId : (req : DnsMessage) (code : ℕ) → HasId req.header.id (create_error req code)
unfolding create_error create_reply set_rcode set_ra set_qr
create_error-HasId req code = refl

-- An answer of a server has the identifier, and the parser ends.
abbrev pub Received : ℕ → Result (Option DnsMessage) → Type 0
Received id (ok (some m)) = HasId id m
Received id (ok none) = Unit
Received id (throw e) = Unit
Received id out_of_bounds = Unit
Received id out_of_fuel = ⊥

parsed-Received :
    (id : ℕ) (m : Result DnsMessage) → Ends m → Received id (do a ← m; ok (some (with_id id a)))
parsed-Received id (ok a) h = refl
parsed-Received id (throw e) h = tt
parsed-Received id out_of_bounds h = tt
parsed-Received id out_of_fuel h = h

received-Received : (id : ℕ) (o : Option (List ℕ)) → Received id (received id o)
unfolding received
received-Received id none = tt
received-Received id (some response) = elim (Bool-cases (ltb (length response) 12)) [
  | inl h ↦ rw h tt
  | inr h ↦ rw h (parsed-Received id (parse response) (parse-Ends response))
]

pub packed-Received :
    (id : ℕ) (m : Result (List ℕ)) (f : List ℕ → Result (Option DnsMessage))
    → Answers m
    → ((wire : List ℕ) → Received id (f wire))
    → Received id (m >>= f)
packed-Received id (ok w) f h k = k w
packed-Received id (throw e) f h k = tt
packed-Received id out_of_bounds f h k = absurd h
packed-Received id out_of_fuel f h k = absurd h

forwarded-Settles :
    (req : DnsMessage) (r : Result (Option DnsMessage))
    → Received req.header.id r
    → Settles (λ (p : DnsMessage × ℕ). HasId req.header.id p.0) (forwarded req r)
unfolding forwarded
forwarded-Settles req (ok (some m)) h = h
forwarded-Settles req (ok none) h = create_error-HasId req serv_fail
forwarded-Settles req (throw e) h = create_error-HasId req serv_fail
forwarded-Settles req out_of_bounds h = tt
forwarded-Settles req out_of_fuel h = h

forward-Settles :
    (exchange : Exchange) (req : DnsMessage) (address : List ℕ)
    → Settles (λ (p : DnsMessage × ℕ). HasId req.header.id p.0) (forward exchange req address)
unfolding forward udp_query_raw
forward-Settles exchange req address = forwarded-Settles req _ (
    packed-Received req.header.id (pack req) _ (pack-Answers req)
      (λ wire. received-Received req.header.id _))

module _ {State : Type 0} (ask : DnsMessage → State → Called (Option DnsMessage) × State) where
  -- The resolver answers under the identifier of the request.
  abbrev pub AsksWithId : Type 0
  AsksWithId =
      (req : DnsMessage) (st : State) (m : DnsMessage)
      → (ask req st).0 ≡ returned (some m)
      → HasId req.header.id m

  abbrev Replies : ℕ → Called DnsMessage × State × ℕ → Type 0
  Replies id (returned m, st, errors) = HasId id m
  Replies id (thrown, st, errors) = Unit

  module _ (asks : AsksWithId) (exchange : Exchange) where
    or_failure-Settles :
        (req : DnsMessage) (r : Called (Option DnsMessage) × State)
        → ((m : DnsMessage) → r.0 ≡ returned (some m) → HasId req.header.id m)
        → Settles (Replies req.header.id) (or_failure ask req r)
    unfolding or_failure
    or_failure-Settles req (returned none, st) h = create_error-HasId req serv_fail
    or_failure-Settles req (returned (some m), st) h = h m refl
    or_failure-Settles req (thrown, st) h = tt

    forward_to-Settles :
        (req : DnsMessage) (address : List ℕ) (st : State)
        → Settles (Replies req.header.id) (forward_to ask exchange req address st)
    unfolding forward_to
    forward_to-Settles req address st =
        Settles->>= _ _ (forward exchange req address) _ (forward-Settles exchange req address)
          (λ (m, errors) h. h)

    resolve-Settles :
        (unq : List ℕ) (req : DnsMessage) (q : DnsQuestion) (st : State)
        → Settles (Replies req.header.id) (resolve ask exchange unq req q st)
    unfolding resolve
    resolve-Settles [] req q st = or_failure-Settles req (ask req st) (asks req st)
    resolve-Settles (u ∷ us) req q st = elim (Bool-cases (is_unqualified q.qname)) [
      | inl h ↦ rw h (forward_to-Settles req (u ∷ us) st)
      | inr h ↦ rw h (or_failure-Settles req (ask req st) (asks req st))
    ]

    reply_to-Settles :
        (overrides : DomainMap) (unq : List ℕ) (req : DnsMessage) (q : DnsQuestion) (st : State)
        → Settles (Replies req.header.id) (reply_to ask exchange overrides unq req q st)
    unfolding reply_to
    reply_to-Settles overrides unq req q st = elim (Bool-cases (is_local_name q.qname)) [
      | inl h ↦ rw h (create_error-HasId req nx_domain)
      | inr h ↦ rw h (elim (Option-cases (get_most_specific q.qname overrides)) [
        | inl g ↦ rw g (resolve-Settles unq req q st)
        | inr (address, g) ↦ rw g (forward_to-Settles req address st)
      ])
    ]

    -- What is sent for a request is a reply, packed, with the request's identifier.
    abbrev pub Sends : DnsMessage → Option (List ℕ) × State × ℕ → Type 0
    Sends req (none, st, errors) = Unit
    Sends req (some wire, st, errors) =
        (reply : DnsMessage) × (pack reply ≡ ok wire) × (reply.header.id ≡ req.header.id)

    sent-Settles :
        (req reply : DnsMessage) (st : State) (errors : ℕ) (r : Result (List ℕ))
        → pack reply ≡ r
        → Answers r
        → HasId req.header.id reply
        → Settles (Sends req) (sent ask st errors r)
    unfolding sent
    sent-Settles req reply st errors (ok wire) e h i = (reply, e, i)
    sent-Settles req reply st errors (throw x) e h i = tt
    sent-Settles req reply st errors out_of_bounds e h i = tt
    sent-Settles req reply st errors out_of_fuel e h i = h

    pack_reply-Settles :
        (req : DnsMessage) (r : Called DnsMessage × State × ℕ)
        → Replies req.header.id r
        → Settles (Sends req) (pack_reply ask r)
    unfolding pack_reply
    pack_reply-Settles req (returned reply, st, errors) h =
        sent-Settles req reply st errors (pack reply) refl (pack-Answers reply) h
    pack_reply-Settles req (thrown, st, errors) h = tt

    reply_on-Settles :
        (overrides : DomainMap) (unq : List ℕ) (req : DnsMessage) (qs : List DnsQuestion)
        (st : State)
        → Settles (Sends req) (reply_on ask exchange overrides unq req qs st)
    unfolding reply_on
    reply_on-Settles overrides unq req [] st = tt
    reply_on-Settles overrides unq req (q ∷ qs) st =
        Settles->>= _ _ (reply_to ask exchange overrides unq req q st) _
          (reply_to-Settles overrides unq req q st) (λ reply h. pack_reply-Settles req reply h)

    abbrev pub Handles : Result DnsMessage → Option (List ℕ) × State × ℕ → Type 0
    Handles (ok req) out = Sends req out
    Handles (throw e) (wire, st, errors) = wire ≡ none
    Handles out_of_bounds out = ⊥
    Handles out_of_fuel out = ⊥

    -- `handleQuery` lets no exception out and never runs out of fuel, on every input, also where the
    -- resolver throws. Unless the parser reads out of bounds, it sends nothing for a request that does not parse, and what it sends for
    -- one that parses, if anything, is a packed reply with the request's identifier, given that the
    -- resolver answers under the identifier of its request.
    pub handle_query-Handles :
        (overrides : DomainMap) (unq bytes : List ℕ) (st : State)
        → Settles (Handles (parse bytes)) (handle_query ask exchange overrides unq bytes st)
    unfolding handle_query handled
    handle_query-Handles overrides unq bytes st = by_parse (parse bytes) (parse-Ends bytes)
      where
        by_parse :
            (r : Result DnsMessage)
            → Ends r
            → Settles (Handles r) (handled ask exchange overrides unq r st)
        by_parse (ok req) h = reply_on-Settles overrides unq req req.questions st
        by_parse (throw e) h = refl
        by_parse out_of_bounds h = tt
        by_parse out_of_fuel h = h
