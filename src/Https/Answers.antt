-- ===== src/Https/Answers.antt =====
-- What `listenAndServe` of https_server.cpp sends for a request.
use dnss_cpp.Common.{
  ℕ, ◌≡◌, ◌≢◌, ◌⊎◌, Bool, true, false, Option, none, some, List, [], take, Result, ok, throw,
  out_of_bounds, out_of_fuel, Error, Answers,
}
use dnss_cpp.Protocol.Message.{DnsMessage, create_error, serv_fail}
use dnss_cpp.Protocol.Parse.{parse}
use dnss_cpp.Protocol.Pack.{pack}
use dnss_cpp.Server.HandleQuery.{Exchange, with_id}
use dnss_cpp.Https.{
  get, post, Request, Response, dns_message, dns_query, resolve_path, invalid_message, unsupported,
  unsupported_type, not_implemented, success, address_of,
}

abbrev pub IsServed : List ℕ → Type 0
IsServed target = (target ≡ dns_query) ⊎ (target ≡ resolve_path)

-- A POST of a DNS message; without TLS, to a path that is served.
abbrev pub IsDnsPost : Bool → Request → Type 0
IsDnsPost tls req =
    (req.method ≡ post) × (req.content_type ≡ dns_message) × ((tls ≡ true) ⊎ IsServed req.target)

-- The response to any other request.
abbrev pub Refuses : Bool → Request → Response → Type 0
Refuses true req r = r ≡ unsupported
Refuses false req r =
    (IsServed req.target × (req.method ≡ get) × (r ≡ not_implemented))
    ⊎ ((IsServed req.target → req.method ≢ get) × (r ≡ unsupported_type))

-- Code that ends, with a postcondition of what it returns, and one of an exception.
abbrev Yields : {A : Type 0} → (A → Type 0) → (Error → Type 0) → Result A → Type 0
Yields P E (ok a) = P a
Yields P E (throw e) = E e
Yields P E out_of_bounds = Unit
Yields P E out_of_fuel = ⊥

module _ (exchange : Exchange) (upstream : List ℕ) where
  -- What the sockets bring back for a query.
  abbrev pub answer_to : List ℕ → Option (List ℕ)
  answer_to wire = exchange (address_of upstream).0 (address_of upstream).1 wire

  -- The query cannot be packed, is not answered, or is answered with what does not parse.
  abbrev pub Unanswered : DnsMessage → Type 0
  Unanswered msg =
      ((e : Error) × (pack msg ≡ throw e))
      ⊎ ((wire : List ℕ) × (pack msg ≡ ok wire)
          × ((answer_to wire ≡ none)
              ⊎ ((bytes : List ℕ) × (e : Error) × (answer_to wire ≡ some bytes)
                  × (parse (take 4096 bytes) ≡ throw e))))

  -- The answer of the upstream under the identifier of the query, or SERVFAIL.
  abbrev pub Replies : DnsMessage → DnsMessage → Type 0
  Replies msg reply =
      ((wire : List ℕ) × (bytes : List ℕ) × (m : DnsMessage) × (pack msg ≡ ok wire)
        × (answer_to wire ≡ some bytes)
        × (parse (take 4096 bytes) ≡ ok m)
        × (reply ≡ with_id msg.header.id m))
      ⊎ (Unanswered msg × (reply ≡ create_error msg serv_fail))

  -- The response to a message.
  abbrev pub Carries : DnsMessage → Response → Type 0
  Carries msg r =
      ((msg.questions ≡ []) × (r ≡ invalid_message))
      ⊎ ((reply : DnsMessage) × (wire : List ℕ) × Replies msg reply
          × (pack reply ≡ ok wire)
          × (r ≡ success wire))

  -- A reply that cannot be packed.
  abbrev pub Unpacked : DnsMessage → Error → Type 0
  Unpacked msg e = (reply : DnsMessage) × Replies msg reply × (pack reply ≡ throw e)

  -- The response to a request, if there is one.
  abbrev pub Serves : Bool → Request → Option Response → Type 0
  Serves tls req (some r) =
      ((IsDnsPost tls req → ⊥) × Refuses tls req r)
      ⊎ (IsDnsPost tls req × ((msg : DnsMessage) × (parse req.body ≡ ok msg) × Carries msg r))
  Serves tls req none =
      IsDnsPost tls req
      × ((e : Error) × ((parse req.body ≡ throw e)
            ⊎ ((msg : DnsMessage) × (parse req.body ≡ ok msg) × Unpacked msg e)))

  abbrev NoError : Error → Type 0
  NoError e = ⊥
