-- ===== src/Cache/Query/Counts.antt =====
-- How `query` counts: each request with one question is a hit, a miss or a stale answer.
use dnss_cpp.Common.{
  ℕ, ◌+◌, ◌*◌, ◌≡◌, refl, Bool, Option, none, some, List, [], ◌∷◌, arith, Called, returned, thrown,
}
use dnss_cpp.Protocol.Message.{DnsMessage, DnsQuestion}
use dnss_cpp.Cache.{Cache, CacheEntry, Settings, StaleRefreshWork, turbo_hash, key_of, second}
use dnss_cpp.Cache.Turbo.{count_turbo, turbo_insert}
use dnss_cpp.Cache.Query.{
  count_miss, count_stale, enqueue_refresh, upstream_failed, remember, upstream_answered,
  ask_upstream, serve_stale, serve_entry, serve_turbo, query_question, query_on, query,
}
use dnss_cpp.Cache.Query.Cases.{query_question_rule}

-- The requests that the three counters have counted.
abbrev pub counted : Cache → ℕ
counted c = c.cache_hits + c.cache_misses + c.stale_hits

abbrev pub Steady : Cache → Cache → Type 0
Steady c d = (counted d ≡ counted c) × (d.total_queries ≡ c.total_queries)

abbrev pub Grows : Cache → Cache → Type 0
Grows c d = (counted d ≡ counted c + 1) × (d.total_queries ≡ c.total_queries)

after : (c d e : Cache) → Steady d e → Grows c d → Grows c e
after c d e (s, u) (g, t) = (omega arith, omega arith)

enqueue_refresh-Steady : (w : StaleRefreshWork) (c : Cache) → Steady c (enqueue_refresh w c)
unfolding enqueue_refresh
enqueue_refresh-Steady w c = ground arith

upstream_answered-Steady :
    (s : Settings) (done : ℕ) (req : DnsMessage) (q : DnsQuestion) (r : Called (Option DnsMessage))
    (c : Cache)
    → Steady c (upstream_answered s done req q r c).1
unfolding upstream_answered upstream_failed remember turbo_insert
upstream_answered-Steady s done req q thrown c = ground arith
upstream_answered-Steady s done req q (returned none) c = ground arith
upstream_answered-Steady s done req q (returned (some reply)) c = ground arith

serve_stale-Grows :
    (now : ℕ) (req : DnsMessage) (q : DnsQuestion) (e : CacheEntry) (c : Cache)
    → Grows c (serve_stale now req q e c).1
unfolding serve_stale turbo_insert
serve_stale-Grows now req q e c =
    let d = turbo_insert (turbo_hash (key_of q)) e.msg (now + 60 * second) (count_stale c) in
    let work : StaleRefreshWork = record { key = key_of q; question = q } in
    after c d (enqueue_refresh work d) (enqueue_refresh-Steady work d) (omega arith, refl)

ask_upstream-Grows :
    (upstream : DnsMessage → Bool → Called (Option DnsMessage)) (fan_out : Bool) (s : Settings)
    (done : ℕ) (req : DnsMessage) (q : DnsQuestion) (c : Cache)
    → Grows c (ask_upstream upstream fan_out s done req q c).1
unfolding ask_upstream
ask_upstream-Grows upstream fan_out s done req q c =
    let r = upstream req fan_out in
    after c (count_miss c) (upstream_answered s done req q r (count_miss c)).1
      (upstream_answered-Steady s done req q r (count_miss c)) (omega arith, refl)

query_question-Grows :
    (upstream : DnsMessage → Bool → Called (Option DnsMessage)) (fan_out : Bool) (s : Settings)
    (now done : ℕ) (req : DnsMessage) (q : DnsQuestion) (c : Cache)
    → Grows c (query_question upstream fan_out s now done req q c).1
query_question-Grows upstream fan_out s now done req q c =
    query_question_rule upstream fan_out s now done req q c (λ a. Grows c a.1)
      (λ m _. unfold serve_turbo in unfold count_turbo in (omega arith, refl))
      (λ e _ _. unfold serve_entry in unfold turbo_insert in (omega arith, refl))
      (λ e _ _ _. serve_stale-Grows now req q e c)
      (ask_upstream-Grows upstream fan_out s done req q c)

-- What `query` counts of a request, by its questions: every request as a query, and one of exactly
-- one question as a hit, a miss or a stale answer, and as one of them only.
abbrev pub Accounts : List DnsQuestion → Cache → Cache → Type 0
Accounts [] c d = (counted d ≡ counted c) × (d.total_queries ≡ c.total_queries + 1)
Accounts (q ∷ []) c d = (counted d ≡ counted c + 1) × (d.total_queries ≡ c.total_queries + 1)
Accounts (q ∷ r ∷ rest) c d = (counted d ≡ counted c) × (d.total_queries ≡ c.total_queries + 1)

-- `query` counts every request once. The sum of the hits, the misses and the stale answers grows by
-- one for a request with exactly one question, and stays for any other.
pub query-Accounts :
    (upstream : DnsMessage → Bool → Called (Option DnsMessage)) (fan_out allow : Bool)
    (s : Settings) (now done : ℕ) (req : DnsMessage) (c : Cache)
    → Accounts req.questions c (query upstream fan_out allow s now done req c).1
unfolding query
query-Accounts upstream fan_out allow s now done req c = by_questions req.questions
  where
    by_questions :
        (qs : List DnsQuestion)
        → Accounts qs c
            (query_on upstream fan_out allow s now done req qs
              (record c { total_queries = c.total_queries + 1 })).1
    by_questions [] = unfold query_on in (refl, refl)
    by_questions (q ∷ []) =
        unfold query_on in query_question-Grows upstream fan_out s now done req q _
    by_questions (q ∷ r ∷ rest) = unfold query_on in (refl, refl)
