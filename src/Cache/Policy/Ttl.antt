-- ===== src/Cache/Policy/Ttl.antt =====
-- How long a reply is kept: `computeCacheTTL` and `clobberTTL` of caching_resolver.cpp.
use dnss_cpp.Common.{
  ℕ, ◌≤◌, min, max, ◌≡◌, refl, Bool, true, false, List, [], ◌∷◌, arith, ltb, if◌then◌else◌, All,
}
use dnss_cpp.Protocol.Message.{DnsMessage, DnsResourceRecord}
use dnss_cpp.Cache.{Settings, max_ttl}
use dnss_cpp.Cache.Policy.{least_ttl, has_rr, is_empty, compute_cache_ttl}

abbrev pub AllRecords : (DnsResourceRecord → Type 0) → DnsMessage → Type 0
AllRecords P m = All P m.answers × All P m.authorities × All P m.additionals

abbrev pub Lives : ℕ → DnsResourceRecord → Type 0
Lives n rr = n ≤ rr.ttl

-- A time to live for a message: within the bounds, and no record with a longer life than the least
-- setting lives shorter.
abbrev pub Fits : Settings → DnsMessage → ℕ → Type 0
Fits s m t =
    (t ≤ max_ttl) × (min s.min_ttl max_ttl ≤ t) × AllRecords (λ rr. t ≤ max rr.ttl s.min_ttl) m

least_ttl_le : (n : ℕ) (rrs : List DnsResourceRecord) → least_ttl n rrs ≤ n
unfolding least_ttl
least_ttl_le n [] = omega arith
least_ttl_le n (rr ∷ rrs) = ground (arith, least_ttl_le rr.ttl rrs, least_ttl_le n rrs)

least_ttl-Lives :
    (k : ℕ) (rrs : List DnsResourceRecord) (n : ℕ) → k ≤ least_ttl n rrs → All (Lives k) rrs
unfolding least_ttl
least_ttl-Lives k [] n h = tt
least_ttl-Lives k (rr ∷ rrs) n h = (
  ground (arith, least_ttl_le rr.ttl rrs, least_ttl_le n rrs),
  least_ttl-Lives k rrs (if ltb rr.ttl n then rr.ttl else n) h,
)

Lives-max :
    (n k t : ℕ) (rrs : List DnsResourceRecord)
    → t ≤ max n k
    → All (Lives n) rrs
    → All (λ rr. t ≤ max rr.ttl k) rrs
Lives-max n k t [] h v = tt
Lives-max n k t (rr ∷ rrs) h (v, vs) = (omega arith, Lives-max n k t rrs h vs)

empty-All :
    (P : DnsResourceRecord → Type 0) (rrs : List DnsResourceRecord)
    → is_empty rrs ≡ true
    → All P rrs
unfolding is_empty
empty-All P [] h = tt
empty-All P (rr ∷ rrs) h = absurd (ground arith)

no_records : (P : DnsResourceRecord → Type 0) (m : DnsMessage) → has_rr m ≡ false → AllRecords P m
unfolding has_rr
no_records P m h = (
  empty-All P m.answers (ground arith),
  empty-All P m.authorities (ground arith),
  empty-All P m.additionals (ground arith),
)

module _ (s : Settings) (m : DnsMessage) where
  unfoldable least : ℕ
  least = least_ttl (least_ttl (least_ttl max_ttl m.answers) m.authorities) m.additionals

  least-Lives : AllRecords (Lives least) m
  unfolding least
  least-Lives =
      let a = least_ttl max_ttl m.answers in
      let b = least_ttl a m.authorities in
      let h = least_ttl_le b m.additionals in
      let g = least_ttl_le a m.authorities in
      (
        least_ttl-Lives least m.answers max_ttl (omega arith),
        least_ttl-Lives least m.authorities a h,
        least_ttl-Lives least m.additionals b (omega arith),
      )

  clamped :
      (t n : ℕ)
      → t ≡ (
          let raised = if ltb n s.min_ttl then s.min_ttl else n in
          if ltb max_ttl raised then max_ttl else raised)
      → (t ≤ max_ttl) × (min s.min_ttl max_ttl ≤ t) × (t ≤ max n s.min_ttl)
  clamped t n e = ground arith

  fit :
      (b : Bool) (t : ℕ)
      → has_rr m ≡ b
      → (t ≤ max_ttl)
        × (min s.min_ttl max_ttl ≤ t)
        × (t ≤ max (if b then least else s.min_ttl) s.min_ttl)
      → Fits s m t
  fit true t e (h, g, u) =
      let (x, y, z) = least-Lives in
      (
        h,
        g,
        (
          Lives-max least s.min_ttl t m.answers u x,
          Lives-max least s.min_ttl t m.authorities u y,
          Lives-max least s.min_ttl t m.additionals u z,
        ),
      )
  fit false t e (h, g, u) = (h, g, no_records _ m e)

-- The time to live that is computed for a reply is at most 7200 seconds and at least the smaller of
-- 7200 and the least setting, and it is at most the time to live of every record of the three
-- sections, or the least setting where that is larger.
pub compute_cache_ttl-Fits : (s : Settings) (m : DnsMessage) → Fits s m (compute_cache_ttl s m)
unfolding compute_cache_ttl least
compute_cache_ttl-Fits s m =
    fit s m (has_rr m) (compute_cache_ttl s m) refl
      (clamped s m (compute_cache_ttl s m) (if has_rr m then least s m else s.min_ttl) refl)
