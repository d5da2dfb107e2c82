-- ===== src/Http/Post.antt =====
-- The end of `doPost` of http_resolver.cpp, where no pool had a connection that answered: one connection
-- of each pool is reopened. What the network does is in `opens` and `exchange`. A connection whose
-- exchange failed is marked by `notifyFailure`, and is no longer connected.
pub mod Leaks
use dnss_cpp.Common.{
  ℕ, zero, suc, ◌+◌, Bool, true, false, not, ◌&&◌, Option, none, some, List, [], ◌∷◌, ltb,
  if◌then◌else◌,
}
use dnss_cpp.Http.Pool.{Connection}

-- The loop over one pool that reopens a connection. `opened` counts those that were tried, `opens` says
-- whether the connection at a position opens, and `exchange` what it answers.
unfoldable pub reopen {ℓ} :
    {Reply : Type ℓ}
    → (ℕ → Bool)
    → (ℕ → Option Reply)
    → ℕ
    → ℕ
    → List Connection
    → Option Reply × List Connection
reopen opens exchange opened i [] = (none, [])
reopen opens exchange opened i (c ∷ cs) =
    let tried = not c.connected && not c.in_use in
    let later = reopen opens exchange (if tried then opened + 1 else opened) (i + 1) cs in
    if not tried
    then (later.0, c ∷ later.1)
    else if ltb 1 (opened + 1)
    then (none, record c { in_use = true } ∷ cs)
    else if not (opens i)
    then (later.0, record { connected = false; in_use = false } ∷ later.1)
    else elim (exchange i) [
      | some reply ↦ (some reply, record { connected = true; in_use = false } ∷ cs)
      | none ↦ (none, record { connected = false; in_use = false } ∷ cs)
    ]

-- The loop over the pools, which stops at a reply.
unfoldable pub reopen_pools {ℓ} :
    {Reply : Type ℓ}
    → (ℕ → ℕ → Bool)
    → (ℕ → ℕ → Option Reply)
    → ℕ
    → List (List Connection)
    → Option Reply × List (List Connection)
reopen_pools opens exchange p [] = (none, [])
reopen_pools opens exchange p (cs ∷ pools) =
    let (reply, after) = reopen (opens p) (exchange p) 0 0 cs in
    let later = reopen_pools opens exchange (p + 1) pools in
    elim reply [ some r ↦ (some r, after ∷ pools) | none ↦ (later.0, after ∷ later.1) ]
