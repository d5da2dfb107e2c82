-- ===== src/Cache/Peek/Agree.antt =====
-- `peekCache` answers what `query` would.
use dnss_cpp.Common.{
  ℕ, ◌+◌, ◌≡◌, refl, ◌⊎◌, inr, Bool, Option, none, List, [], ◌∷◌, arith, Called, returned,
}
use dnss_cpp.Protocol.Message.{DnsMessage, DnsQuestion}
use dnss_cpp.Cache.{Cache, Settings}
use dnss_cpp.Cache.Turbo.{turbo_lookup}
use dnss_cpp.Cache.Query.{serve_turbo, serve_entry, serve_stale, query_question, query_on, query}
use dnss_cpp.Cache.Query.Again.{seen}
use dnss_cpp.Cache.Peek.{peek_question, peek_on, peek_cache}

module _ (upstream : DnsMessage → Bool → Called (Option DnsMessage)) (fan_out allow : Bool)
    (s : Settings) where
  module _ (now done : ℕ) (req : DnsMessage) (c : Cache) where
    agree_question :
        (q : DnsQuestion)
        → (returned (peek_question now s req q c).0
            ≡ (query_question upstream fan_out s now done req q (seen q c)).0)
          ⊎ (peek_question now s req q c ≡ (none, c))
    unfolding peek_question query_question serve_turbo serve_entry serve_stale turbo_lookup
    agree_question q = ground arith

-- `peekCache` gives the answer that `query` gives at the same time, whatever the upstream says, or it
-- gives none and leaves the cache as it is.
pub peek_cache-query :
    (upstream : DnsMessage → Bool → Called (Option DnsMessage)) (fan_out allow : Bool)
    (s : Settings) (now done : ℕ) (req : DnsMessage) (c : Cache)
    → (returned (peek_cache now s req c).0 ≡ (query upstream fan_out allow s now done req c).0)
      ⊎ (peek_cache now s req c ≡ (none, c))
unfolding peek_cache query
peek_cache-query upstream fan_out allow s now done req c = by_questions req.questions
  where
    by_questions :
        (qs : List DnsQuestion)
        → (returned (peek_on now s req qs c).0
            ≡ (query_on upstream fan_out allow s now done req qs
                (record c { total_queries = c.total_queries + 1 })).0)
          ⊎ (peek_on now s req qs c ≡ (none, c))
    by_questions [] = inr (unfold peek_on in refl)
    by_questions (q ∷ []) =
        unfold peek_on in
        unfold query_on in agree_question upstream fan_out allow s now done req c q
    by_questions (q ∷ r ∷ rest) = inr (unfold peek_on in refl)
