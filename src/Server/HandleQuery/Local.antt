-- ===== src/Server/HandleQuery/Local.antt =====
-- Names of the local network in `handleQuery` of dns_server.cpp.
use dnss_cpp.Common.{
  ℕ, ◌+◌, ◌-◌, ◌≡◌, ap, ◌∙◌, true, Option, none, some, List, ◌∷◌, ◌++◌, arith, if◌then◌else◌,
  length-append, drop, ok, Called, returned, ◌>>=◌,
}
use dnss_cpp.Common.Text.{text_eq, text_eq_refl}
use dnss_cpp.Protocol.Buffer.{drop-append}
use dnss_cpp.Protocol.Message.{DnsMessage, DnsQuestion, create_error, nx_domain}
use dnss_cpp.Protocol.Parse.{parse}
use dnss_cpp.Protocol.Pack.{pack}
use dnss_cpp.DomainMap.{DomainMap, get_most_specific}
use dnss_cpp.Server.HandleQuery.{
  Exchange, local_suffix, is_local_name, reply_to, forward_to, resolve, reply_on, handled, sent,
  pack_reply, handle_query,
}

is_local_name-append : (front : List ℕ) → is_local_name (front ++ local_suffix) ≡ true
unfolding is_local_name
is_local_name-append front =
    let size = length-append front local_suffix in
    ground (
      arith,
      size,
      ap (λ (n : ℕ). text_eq (drop n (front ++ local_suffix)) local_suffix) (front_size size),
      ap (λ r. text_eq r local_suffix) (drop-append front local_suffix),
      text_eq_refl local_suffix,
    )
  where
    front_size : {n k : ℕ} → n ≡ k + 6 → n - 6 ≡ k
    front_size e = omega arith

module _ {State : Type 0} (ask : DnsMessage → State → Called (Option DnsMessage) × State)
    (exchange : Exchange) where
  -- A request whose first name ends in `.local` is answered with NXDOMAIN, whatever the overrides and
  -- the other servers are: the resolver is not asked and keeps its state, and no error is recorded.
  pub handle_query-local :
      (overrides : DomainMap) (unq bytes : List ℕ) (st : State) (req : DnsMessage) (q : DnsQuestion)
      (qs : List DnsQuestion) (front : List ℕ)
      → parse bytes ≡ ok req
      → req.questions ≡ q ∷ qs
      → q.qname ≡ front ++ local_suffix
      → handle_query ask exchange overrides unq bytes st
        ≡ sent ask st 0 (pack (create_error req nx_domain))
  unfolding handle_query handled reply_on reply_to pack_reply
  handle_query-local overrides unq bytes st req q qs front e f g =
      ap (λ r. handled ask exchange overrides unq r st) e
      ∙ ap (λ qs. reply_on ask exchange overrides unq req qs st) f
      ∙ ap
          (λ b.
            (if b
              then ok (returned (create_error req nx_domain), st, 0)
              else elim (get_most_specific q.qname overrides) [
                | some address ↦ forward_to ask exchange req address st
                | none ↦ resolve ask exchange unq req q st
              ])
            >>= λ reply. pack_reply ask reply)
          (ap is_local_name g ∙ is_local_name-append front)
