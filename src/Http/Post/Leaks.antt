-- ===== src/Http/Post/Leaks.antt =====
-- Connections that the reopening loop of `doPost` marks as in use and never gives back.
use dnss_cpp.Common.{
  ℕ, zero, suc, ◌+◌, ◌-◌, min, ◌≡◌, refl, false, not, ◌&&◌, Option, none, List, [], ◌∷◌, arith,
  if◌then◌else◌,
}
use dnss_cpp.Http.Pool.{Connection}
use dnss_cpp.Http.Post.{reopen}

-- The connections that may be reopened, and those that are in use without being connected.
abbrev pub idle : List Connection → ℕ
idle [] = 0
idle (c ∷ cs) = (if not c.connected && not c.in_use then 1 else 0) + idle cs

abbrev pub held : List Connection → ℕ
held [] = 0
held (c ∷ cs) = (if not c.connected && c.in_use then 1 else 0) + held cs

-- Of both kinds together there are as many as before.
abbrev KeepsUnconnected : List Connection → List Connection → Type 0
KeepsUnconnected cs after = held after + idle after ≡ held cs + idle cs

module _ {Reply : Type 0} (exchange : ℕ → Option Reply) where
  -- A connection was tried: the next one that may be is held.
  second_is_held :
      (i : ℕ) (cs : List Connection)
      → let (reply, after) = reopen (λ k. false) exchange 1 i cs in
        (reply ≡ none) × KeepsUnconnected cs after × (idle after ≡ idle cs - 1)
  unfolding reopen
  second_is_held i [] = (refl, refl, omega arith)
  second_is_held i (c ∷ cs) = ground (arith, second_is_held (i + 1) cs)

  first_is_freed :
      (i : ℕ) (cs : List Connection)
      → let (reply, after) = reopen (λ k. false) exchange 0 i cs in
        (reply ≡ none) × KeepsUnconnected cs after × (idle after ≡ (idle cs - 2) + min 1 (idle cs))
  unfolding reopen
  first_is_freed i [] = (refl, refl, omega arith)
  first_is_freed i (c ∷ cs) = ground (arith, first_is_freed (i + 1) cs, second_is_held (i + 1) cs)

  -- The connections after so many calls in which no connection opens.
  unfoldable pub failed_calls : ℕ → List Connection → List Connection
  failed_calls zero cs = cs
  failed_calls (suc n) cs = failed_calls n (reopen (λ k. false) exchange 0 0 cs).1

  -- Each call in which the connection that is tried does not open leaves another one in use that is not
  -- connected and that nobody uses, until one connection is left that may be reopened: after `n` such
  -- calls, there are `n` more of them, or all but that one.
  pub held-failed_calls :
      (n : ℕ) (cs : List Connection) → held (failed_calls n cs) ≡ held cs + min n (idle cs - 1)
  unfolding failed_calls
  held-failed_calls zero cs = omega arith
  held-failed_calls (suc n) cs =
      ground
        (arith, first_is_freed 0 cs, held-failed_calls n (reopen (λ k. false) exchange 0 0 cs).1)
