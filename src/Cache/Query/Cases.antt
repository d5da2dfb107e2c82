-- ===== src/Cache/Query/Cases.antt =====
-- The four ways in which `query` answers a request with one question.
use dnss_cpp.Common.{
  ℕ, ◌+◌, ◌*◌, ◌<◌, ◌≡◌, refl, sym, inl, inr, Bool, true, false, Option, none, some, arith, ltb,
  if◌then◌else◌, Option-cases, Called,
}
use mathlib.Core.Path.{subst}
use dnss_cpp.Protocol.Message.{DnsMessage, DnsQuestion}
use dnss_cpp.Cache.{Cache, CacheEntry, Settings, key_of, turbo_hash, second}
use dnss_cpp.Cache.Policy.{is_expired}
use dnss_cpp.Cache.Turbo.{turbo_lookup}
use dnss_cpp.Cache.Store.{find}
use dnss_cpp.Cache.Query.{
  Outcome, answer_with, ask_upstream, serve_stale, serve_entry, serve_turbo, query_question,
}

module _ (upstream : DnsMessage → Bool → Called (Option DnsMessage)) (fan_out : Bool)
    (s : Settings) where
  module _ (now done : ℕ) (req : DnsMessage) (q : DnsQuestion) (c : Cache) where
    pub run_turbo :
        (m : DnsMessage)
        → turbo_lookup now (turbo_hash (key_of q)) c ≡ some m
        → query_question upstream fan_out s now done req q c ≡ answer_with (serve_turbo req q m c)
    unfolding query_question
    run_turbo m h = ground arith

    pub run_none :
        turbo_lookup now (turbo_hash (key_of q)) c ≡ none
        → find (key_of q) c.cache ≡ none
        → query_question upstream fan_out s now done req q c
          ≡ ask_upstream upstream fan_out s done req q c
    unfolding query_question
    run_none h g = ground arith

    pub run_some :
        (e : CacheEntry)
        → turbo_lookup now (turbo_hash (key_of q)) c ≡ none
        → find (key_of q) c.cache ≡ some e
        → query_question upstream fan_out s now done req q c ≡ (
            if is_expired now e
            then if ltb now (e.expires_at + s.stale_threshold * second)
              then answer_with (serve_stale now req q e c)
              else ask_upstream upstream fan_out s done req q c
            else answer_with (serve_entry req q e c))
    unfolding query_question
    run_some e h g = ground arith

    -- What holds of each way of answering holds of the answer.
    pub query_question_rule :
        (P : Outcome → Type 0)
        → ((m : DnsMessage)
            → turbo_lookup now (turbo_hash (key_of q)) c ≡ some m
            → P (answer_with (serve_turbo req q m c)))
        → ((e : CacheEntry)
            → find (key_of q) c.cache ≡ some e
            → is_expired now e ≡ false
            → P (answer_with (serve_entry req q e c)))
        → ((e : CacheEntry)
            → find (key_of q) c.cache ≡ some e
            → is_expired now e ≡ true
            → now < e.expires_at + s.stale_threshold * second
            → P (answer_with (serve_stale now req q e c)))
        → P (ask_upstream upstream fan_out s done req q c)
        → P (query_question upstream fan_out s now done req q c)
    query_question_rule P turbo entry stale ask =
        elim (Option-cases (turbo_lookup now (turbo_hash (key_of q)) c)) [
          | inr (m, h) ↦ subst P (sym (run_turbo m h)) (turbo m h)
          | inl h ↦ elim (Option-cases (find (key_of q) c.cache)) [
            | inl g ↦ subst P (sym (run_none h g)) ask
            | inr (e, g) ↦ subst P (sym (run_some e h g)) (found e g)
          ]
        ]
      where
        fresh :
            (e : CacheEntry) (b : Bool)
            → find (key_of q) c.cache ≡ some e
            → is_expired now e ≡ true
            → ltb now (e.expires_at + s.stale_threshold * second) ≡ b
            → P (
                if b
                then answer_with (serve_stale now req q e c)
                else ask_upstream upstream fan_out s done req q c)
        fresh e true g h l = stale e g h (ground arith)
        fresh e false g h l = ask

        age :
            (e : CacheEntry) (b : Bool)
            → find (key_of q) c.cache ≡ some e
            → is_expired now e ≡ b
            → P (
                if b
                then if ltb now (e.expires_at + s.stale_threshold * second)
                  then answer_with (serve_stale now req q e c)
                  else ask_upstream upstream fan_out s done req q c
                else answer_with (serve_entry req q e c))
        age e true g h = fresh e _ g h refl
        age e false g h = entry e g h

        found :
            (e : CacheEntry)
            → find (key_of q) c.cache ≡ some e
            → P (
                if is_expired now e
                then if ltb now (e.expires_at + s.stale_threshold * second)
                  then answer_with (serve_stale now req q e c)
                  else ask_upstream upstream fan_out s done req q c
                else answer_with (serve_entry req q e c))
        found e g = age e _ g refl
