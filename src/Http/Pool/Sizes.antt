-- ===== src/Http/Pool/Sizes.antt =====
-- How many connections a pool has.
use dnss_cpp.Common.{
  ℕ, zero, suc, ◌+◌, ◌-◌, ◌*◌, ◌/◌, ◌≤◌, ◌≡◌, max, List, [], ◌∷◌, ◌++◌, arith, ltb, length,
  length-append, All, Bool-cases, inl, inr,
}
use native.Mathlib.Nat.{div-le_of_le-mul}
use dnss_cpp.Http.Pool.{
  UpstreamPool, Connection, new_connection, add_connections, ensure_pool_size, pop_back, rebalance,
  maintain_pool, maintain_pools, maintain,
}

length-add_connections :
    (n : ℕ) (cs : List Connection) → length (add_connections n cs) ≡ length cs + n
unfolding add_connections
length-add_connections zero cs = omega arith
length-add_connections (suc n) cs = ground (
  arith,
  length-append cs (new_connection ∷ []),
  length-add_connections n (cs ++ (new_connection ∷ [])),
)

length-ensure_pool_size :
    (target : ℕ) (pool : UpstreamPool)
    → length (ensure_pool_size target pool).connections ≡ max target (length pool.connections)
unfolding ensure_pool_size
length-ensure_pool_size target pool =
    ground (arith, length-add_connections (target - length pool.connections) pool.connections)

length-pop_back : (cs : List Connection) → length (pop_back cs) ≡ length cs - 1
unfolding pop_back
length-pop_back [] = omega arith
length-pop_back (c ∷ []) = omega arith
length-pop_back (c ∷ d ∷ cs) = ground (arith, length-pop_back (d ∷ cs))

-- Two connections to half of the greatest number, and a ratio that is a percentage.
abbrev pub IsSized : UpstreamPool → Type 0
IsSized pool =
    (2 ≤ length pool.connections) × (length pool.connections ≤ 64) × (pool.last_error_ratio ≤ 100)

rebalance-IsSized :
    (ratio : ℕ) (pool : UpstreamPool) → IsSized pool → IsSized (rebalance ratio pool)
unfolding rebalance ensure_pool_size
rebalance-IsSized ratio pool h = ground (
  arith,
  length-pop_back pool.connections,
  length-add_connections (length pool.connections + 1 - length pool.connections) pool.connections,
)

ratio_le : (e s : ℕ) → 10 ≤ s + e → e * 100 / (s + e) ≤ 100
ratio_le e s h = div-le_of_le-mul (s + e) (omega arith)

maintain_pool-IsSized : (pool : UpstreamPool) → IsSized pool → IsSized (maintain_pool pool)
unfolding maintain_pool
maintain_pool-IsSized pool (a, b, c) =
    let ratio = pool.errors * 100 / (pool.successes + pool.errors) in
    elim (Bool-cases (ltb (pool.successes + pool.errors) 10)) [
      | inl few ↦ rw few (a, b, c)
      | inr enough ↦ rw enough (
          rebalance-IsSized ratio (record pool { last_error_ratio = ratio })
            (a, b, ratio_le pool.errors pool.successes (ground (arith, enough))))
    ]

maintain_pools-IsSized :
    (pools : List UpstreamPool) → All IsSized pools → All IsSized (maintain_pools pools)
unfolding maintain_pools
maintain_pools-IsSized [] h = tt
maintain_pools-IsSized (pool ∷ pools) (h, hs) =
    (maintain_pool-IsSized pool h, maintain_pools-IsSized pools hs)

-- If every pool has 2 to 64 connections and a ratio of errors of at most 100, then so it is after
-- `maintain`.
pub maintain-IsSized :
    (pools : List UpstreamPool) → All IsSized pools → All IsSized (maintain pools)
unfolding maintain
maintain-IsSized pools h = elim (Bool-cases (ltb (length pools) 2)) [
  | inl one ↦ rw one h
  | inr more ↦ rw more (maintain_pools-IsSized pools h)
]
