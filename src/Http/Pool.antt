-- ===== src/Http/Pool.antt =====
-- The pools of connections of http_resolver.cpp: `ensurePoolSize`, `getNextConnection`, `maintain` and
-- `getPoolStats`. Of a connection there is what these read and write: its two flags.
pub mod Next
pub mod Sizes
use dnss_cpp.Common.{
  ℕ, zero, suc, ◌+◌, ◌-◌, ◌*◌, ◌/◌, ◌%◌, ◌^◌, max, Bool, true, false, not, ◌&&◌, Option, none, some,
  List, [], ◌∷◌, ◌++◌, ltb, leb, ◌==◌, if◌then◌else◌, length, get_elem?, Result, ok, out_of_bounds,
  ◌>>=◌,
}

pub record Connection : Type 0 where
  pub connected : Bool
  pub in_use : Bool

-- `next_conn` is the 32 bit counter, read as unsigned.
pub record UpstreamPool : Type 0 where
  pub connections : List Connection
  pub next_conn : ℕ
  pub errors : ℕ
  pub successes : ℕ
  pub last_error_ratio : ℕ

abbrev pub new_connection : Connection
new_connection = record { connected = false; in_use = false }

abbrev pub max_connections : ℕ
max_connections = 128

unfoldable pub add_connections : ℕ → List Connection → List Connection
add_connections zero cs = cs
add_connections (suc n) cs = add_connections n (cs ++ (new_connection ∷ []))

unfoldable pub ensure_pool_size : ℕ → UpstreamPool → UpstreamPool
ensure_pool_size target pool = record pool {
  connections = add_connections (target - length pool.connections) pool.connections;
}

-- The connections that one pool is to have, of what the tuner recommends.
unfoldable pub target_per_pool : ℕ → ℕ → ℕ
target_per_pool recommended pools = max (recommended / pools) 2

abbrev pub is_free : Connection → Bool
is_free c = c.connected && not c.in_use

-- `inUse.exchange(true)` at a position.
unfoldable pub occupy : ℕ → List Connection → List Connection
occupy n [] = []
occupy zero (c ∷ cs) = record c { in_use = true } ∷ cs
occupy (suc n) (c ∷ cs) = c ∷ occupy n cs

-- The loop over `i`, of which `n` rounds are left, from position `start` on.
unfoldable pub find_free : ℕ → ℕ → ℕ → List Connection → Result (Option ℕ)
find_free zero i start cs = ok none
find_free (suc n) i start cs =
    let idx = (start + i) % length cs in
    let later = find_free n (i + 1) start cs in
    elim (get_elem? cs idx) [
      | none ↦ out_of_bounds
      | some c ↦ if is_free c then ok (some idx) else later
    ]

-- `nextConn % numConns` on a counter that has become negative is negative or zero.
unfoldable pub start_of : ℕ → ℕ → Result ℕ
start_of counter n =
    if ltb counter (2 ^ 31)
    then ok (counter % n)
    else if (2 ^ 32 - counter) % n == 0
    then ok 0
    else out_of_bounds

unfoldable pub take_connection : UpstreamPool → Option ℕ → Option ℕ × UpstreamPool
take_connection pool none = (none, pool)
take_connection pool (some idx) =
    (some idx, record pool { connections = occupy idx pool.connections })

unfoldable pub get_next_connection : UpstreamPool → Result (Option ℕ × UpstreamPool)
get_next_connection pool =
    let n = length pool.connections in
    let counted = record pool { next_conn = (pool.next_conn + 1) % 2 ^ 32 } in
    let taken = (do
      start ← start_of pool.next_conn n
      found ← find_free n 0 start pool.connections
      ok (take_connection counted found)) in
    if n == 0 then ok (none, pool) else taken

-- `pop_back`
unfoldable pub pop_back : List Connection → List Connection
pop_back [] = []
pop_back (c ∷ []) = []
pop_back (c ∷ d ∷ cs) = c ∷ pop_back (d ∷ cs)

unfoldable pub rebalance : ℕ → UpstreamPool → UpstreamPool
rebalance ratio pool =
    let size = length pool.connections in
    if ltb 30 ratio && ltb 2 size
    then record pool { connections = pop_back pool.connections }
    else if ltb ratio 5 && ltb size (max_connections / 2)
    then ensure_pool_size (size + 1) pool
    else pool

unfoldable pub maintain_pool : UpstreamPool → UpstreamPool
maintain_pool pool =
    let total = pool.successes + pool.errors in
    let ratio = pool.errors * 100 / total in
    let after = rebalance ratio (record pool { last_error_ratio = ratio }) in
    if ltb total 10
    then pool
    else record after { successes = after.successes / 2; errors = after.errors / 2 }

unfoldable pub maintain_pools : List UpstreamPool → List UpstreamPool
maintain_pools [] = []
maintain_pools (pool ∷ pools) = maintain_pool pool ∷ maintain_pools pools

unfoldable pub maintain : List UpstreamPool → List UpstreamPool
maintain pools = if ltb (length pools) 2 then pools else maintain_pools pools

unfoldable pub count_connected : List Connection → ℕ
count_connected [] = 0
count_connected (c ∷ cs) = (if c.connected then 1 else 0) + count_connected cs

-- What `getPoolStats` says of a pool: the connected ones, all of them, and the percentage of errors.
unfoldable pub pool_stats : UpstreamPool → ℕ × ℕ × ℕ
pool_stats pool =
    let total = pool.errors + pool.successes in
    (
      count_connected pool.connections,
      length pool.connections,
      if ltb 0 total then pool.errors * 100 / total else 0,
    )
