-- ===== src/Cache/Query/Refresh.antt =====
-- What `refreshEntry` of caching_resolver.cpp changes.
use dnss_cpp.Common.{
  ℕ, ◌≡◌, refl, sym, ◌⊎◌, inl, inr, Bool, true, false, Option, none, some, arith, if◌then◌else◌,
  Called, returned, thrown, length,
}
use mathlib.Core.Path.{subst}
use dnss_cpp.Protocol.Message.{DnsMessage, DnsQuestion}
use dnss_cpp.Cache.{Cache, CacheKey, CacheEntry, Settings, key_eq}
use dnss_cpp.Cache.Policy.{should_cache, cache_time, clobber_ttl}
use dnss_cpp.Cache.Store.{find}
use dnss_cpp.Cache.Store.Laws.{find-put, length-put_present}
use dnss_cpp.Cache.Query.{entry_for, refresh_request, refreshed, refresh_entry}

-- The cache as it was, or the entry of the key written anew from a reply that may be cached.
abbrev pub Refreshed :
    (DnsMessage → Bool → Called (Option DnsMessage))
    → Settings
    → ℕ
    → CacheKey
    → DnsQuestion
    → Cache
    → Cache
    → Type 0
Refreshed upstream s done key q c d =
    (d ≡ c)
    ⊎ ((reply : DnsMessage) × (e : CacheEntry) × (upstream (refresh_request q) true
          ≡ returned (some reply))
        × (should_cache q reply ≡ true)
        × (find key c.cache ≡ some e)
        × (length d.cache ≡ length c.cache)
        × ((j : CacheKey)
            → find j d.cache ≡ (
                if key_eq j key
                then some
                    (entry_for (clobber_ttl (cache_time s reply) reply) (cache_time s reply) done)
                else find j c.cache)))

module _ (upstream : DnsMessage → Bool → Called (Option DnsMessage)) (s : Settings) (done : ℕ) where
  module _ (key : CacheKey) (q : DnsQuestion) (c : Cache) where
    refresh_entry_thrown :
        upstream (refresh_request q) true ≡ thrown → (refresh_entry upstream s done key q c).1 ≡ c
    unfolding refresh_entry
    refresh_entry_thrown h = ground arith

    unanswered :
        upstream (refresh_request q) true ≡ returned none
        → (refresh_entry upstream s done key q c).1 ≡ c
    unfolding refresh_entry
    unanswered h = ground arith

    answered :
        (reply : DnsMessage)
        → upstream (refresh_request q) true ≡ returned (some reply)
        → (refresh_entry upstream s done key q c).1
          ≡ (if should_cache q reply then refreshed s done key reply (find key c.cache) c else c)
    unfolding refresh_entry
    answered reply h = ground arith

    written :
        (reply : DnsMessage) (o : Option CacheEntry)
        → upstream (refresh_request q) true ≡ returned (some reply)
        → should_cache q reply ≡ true
        → find key c.cache ≡ o
        → Refreshed upstream s done key q c (refreshed s done key reply o c)
    unfolding refreshed
    written reply none u h g = inl refl
    written reply (some e) u h g =
        inr
          (reply, e, u, h, g, length-put_present key _ e c.cache g, (λ j. find-put j key _ c.cache))

-- `refreshEntry` leaves the cache as it was, or the upstream answered with a reply that may be
-- cached, the key had an entry, and that entry alone is written anew, with the reply's time to live
-- from the time of the answer; the number of entries never changes.
pub refresh_entry-Refreshed :
    (upstream : DnsMessage → Bool → Called (Option DnsMessage)) (s : Settings) (done : ℕ)
    (key : CacheKey) (q : DnsQuestion) (c : Cache)
    → Refreshed upstream s done key q c (refresh_entry upstream s done key q c).1
refresh_entry-Refreshed upstream s done key q c = by_reply (upstream (refresh_request q) true) refl
  where
    allowed :
        (reply : DnsMessage)
        → upstream (refresh_request q) true ≡ returned (some reply)
        → (b : Bool) → should_cache q reply ≡ b
        → Refreshed upstream s done key q c
            (if b then refreshed s done key reply (find key c.cache) c else c)
    allowed reply h true g = written upstream s done key q c reply _ h g refl
    allowed reply h false g = inl refl

    by_reply :
        (r : Called (Option DnsMessage))
        → upstream (refresh_request q) true ≡ r
        → Refreshed upstream s done key q c (refresh_entry upstream s done key q c).1
    by_reply thrown h = inl (refresh_entry_thrown upstream s done key q c h)
    by_reply (returned none) h = inl (unanswered upstream s done key q c h)
    by_reply (returned (some reply)) h =
        subst (Refreshed upstream s done key q c) (sym (answered upstream s done key q c reply h))
          (allowed reply h (should_cache q reply) refl)
