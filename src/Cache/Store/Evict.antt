-- ===== src/Cache/Store/Evict.antt =====
-- Which entry makes room in a full cache: the eviction in `CachingResolver::query` of
-- caching_resolver.cpp.
use dnss_cpp.Common.{
  ℕ, suc, ◌-◌, ◌^◌, ◌≤◌, ◌<◌, ◌≡◌, refl, sym, ap, ◌⊎◌, inl, inr, true, false, ◌&&◌, [], ◌∷◌, arith,
  ltb, length, All, Bool-cases,
}
use mathlib.Core.Path.{subst}
use dnss_cpp.Cache.{CacheKey, CacheEntry}
use dnss_cpp.Cache.Store.{Entries, erase, remaining_ms, evict_scan, evict}
use dnss_cpp.Cache.Store.Laws.{key_eq_iff}

abbrev pub Has : CacheKey × CacheEntry → Entries → Type 0
Has p [] = ⊥
Has p (q ∷ es) = (q ≡ p) ⊎ Has p es

-- No entry with time left has less than `n`.
abbrev pub NoneSooner : ℕ → ℕ → Entries → Type 0
NoneSooner now n es = All (λ p. 0 < remaining_ms now p.1 → n ≤ remaining_ms now p.1) es

NoneSooner-mono : (now n k : ℕ) (es : Entries) → n ≤ k → NoneSooner now k es → NoneSooner now n es
NoneSooner-mono now n k [] h v = tt
NoneSooner-mono now n k (p ∷ es) h (v, vs) =
    ((λ t. omega (arith, v t)), NoneSooner-mono now n k es h vs)

abbrev Scanned : ℕ → ℕ → CacheKey → Entries → CacheKey → Type 0
Scanned now least victim es r =
    ((r ≡ victim) × NoneSooner now least es)
    ⊎ ((e : CacheEntry) × Has (r, e) es
        × (0 < remaining_ms now e)
        × (remaining_ms now e < least)
        × NoneSooner now (remaining_ms now e) es)

module _ (now least : ℕ) (victim k : CacheKey) (e : CacheEntry) (es : Entries) where
  better :
      (r : CacheKey)
      → 0 < remaining_ms now e
      → remaining_ms now e < least
      → Scanned now (remaining_ms now e) k es r
      → Scanned now least victim ((k, e) ∷ es) r
  better r p q (inl (a, b)) =
      inr (e, inl (ap (λ (j : CacheKey). (j, e)) (sym a)), p, q, ((λ _. omega arith), b))
  better r p q (inr (e', h, p', q', b)) = inr (e', inr h, p', omega arith, ((λ _. omega arith), b))

  same :
      (r : CacheKey)
      → (ltb 0 (remaining_ms now e) && ltb (remaining_ms now e) least) ≡ false
      → Scanned now least victim es r
      → Scanned now least victim ((k, e) ∷ es) r
  same r f (inl (a, b)) = inl (a, ((λ t. ground arith), b))
  same r f (inr (e', h, p', q', b)) = inr (e', inr h, p', q', ((λ t. ground arith), b))

  step_true :
      (ltb 0 (remaining_ms now e) && ltb (remaining_ms now e) least) ≡ true
      → evict_scan now least victim ((k, e) ∷ es) ≡ evict_scan now (remaining_ms now e) k es
  unfolding evict_scan
  step_true h = ground arith

  step_false :
      (ltb 0 (remaining_ms now e) && ltb (remaining_ms now e) least) ≡ false
      → evict_scan now least victim ((k, e) ∷ es) ≡ evict_scan now least victim es
  unfolding evict_scan
  step_false h = ground arith

evict_scan-Scanned :
    (now : ℕ) (es : Entries) (least : ℕ) (victim : CacheKey)
    → Scanned now least victim es (evict_scan now least victim es)
evict_scan-Scanned now [] least victim = inl (unfold evict_scan in refl, tt)
evict_scan-Scanned now ((k, e) ∷ es) least victim =
    elim (Bool-cases (ltb 0 (remaining_ms now e) && ltb (remaining_ms now e) least)) [
      | inl h ↦
          subst (Scanned now least victim ((k, e) ∷ es)) (sym (step_true now least victim k e es h))
            (better now least victim k e es _ (ground arith) (ground arith)
              (evict_scan-Scanned now es (remaining_ms now e) k))
      | inr h ↦
          subst (Scanned now least victim ((k, e) ∷ es))
            (sym (step_false now least victim k e es h))
            (same now least victim k e es _ h (evict_scan-Scanned now es least victim))
    ]

length-erase :
    (key : CacheKey) (e : CacheEntry) (es : Entries)
    → Has (key, e) es
    → suc (length (erase key es)) ≡ length es
unfolding erase
length-erase key e [] h = elim h [ ]
length-erase key e ((k, f) ∷ es) (inl h) =
    ground (arith, (key_eq_iff key k).1 (ap (λ (p : CacheKey × CacheEntry). p.0) (sym h)))
length-erase key e ((k, f) ∷ es) (inr h) = ground (arith, length-erase key e es h)

-- One entry is gone: none with time left had less of it, or it was the first, and no entry had time
-- left under the bound of the scan.
abbrev pub Evicted : ℕ → Entries → Entries → Type 0
Evicted now es r =
    (key : CacheKey) × (e : CacheEntry) × Has (key, e) es
    × (r ≡ erase key es)
    × (suc (length r) ≡ length es)
    × (((0 < remaining_ms now e) × NoneSooner now (remaining_ms now e) es)
        ⊎ NoneSooner now (2 ^ 64 - 1) es)

-- The eviction from a cache that is not empty removes exactly one entry. The entry has time left, in
-- whole milliseconds, and no entry with time left has less, unless no entry at all has from 1 to
-- 2^64 - 2 milliseconds left.
pub evict-Evicted : (now : ℕ) (es : Entries) → 0 < length es → Evicted now es (evict now es)
unfolding evict
evict-Evicted now [] h = absurd (omega arith)
evict-Evicted now ((k, e) ∷ es) h =
    conclude (evict_scan now (2 ^ 64 - 1) k ((k, e) ∷ es))
      (evict_scan-Scanned now ((k, e) ∷ es) (2 ^ 64 - 1) k)
  where
    conclude :
        (r : CacheKey)
        → Scanned now (2 ^ 64 - 1) k ((k, e) ∷ es) r
        → Evicted now ((k, e) ∷ es) (erase r ((k, e) ∷ es))
    conclude r (inl (a, b)) =
        let has : Has (r, e) ((k, e) ∷ es) = inl (ap (λ (j : CacheKey). (j, e)) (sym a)) in
        (r, e, has, refl, length-erase r e ((k, e) ∷ es) has, inr b)
    conclude r (inr (f, has, p, q, b)) =
        (r, f, has, refl, length-erase r f ((k, e) ∷ es) has, inl (p, b))
