-- ===== src/Connections/Invariant.antt =====
-- What holds of the controller between its calls, and what a write to one entry keeps of it.
use dnss_cpp.Common.{
  ℕ, ◌+◌, ◌≡◌, ◌∙◌, true, false, some, List, [], ◌∷◌, arith, ◌==◌, ==_iff, length, All, Bool-cases,
  inl, inr,
}
use dnss_cpp.Connections.{Managed, Work, Controller, bit, find_entry, replace, erase}
use dnss_cpp.Connections.Entries.{count_connected, IsFresh, AreDistinct, count_work}

-- An entry waits for a reconnect exactly if there is one work for its stream, and then it is down. `work`
-- counts the work for a stream.
abbrev pub Fits : (ℕ → ℕ) → Managed → Type 0
Fits work m =
    (work m.stream ≡ bit m.reconnect_pending) × (m.reconnect_pending ≡ true → m.connected ≡ false)

-- The counters are those of the list, no stream stands twice, and every entry fits the work that is
-- queued, in flight, or owed.
abbrev pub Holds : List Work → Controller → Type 0
Holds owed c =
    (c.connected_count ≡ count_connected c.managed)
    × (c.total_count ≡ length c.managed)
    × AreDistinct c.managed
    × All
        (Fits (λ s. count_work s c.reconnect_queue + count_work s c.in_flight + count_work s owed))
        c.managed

abbrev pub SameBut : ℕ → (ℕ → ℕ) → (ℕ → ℕ) → Type 0
SameBut s work work' = (t : ℕ) → (t == s) ≡ false → work' t ≡ work t

module _ (s : ℕ) (work work' : ℕ → ℕ) (same : SameBut s work work') where
  pub Fits-IsFresh : (ms : List Managed) → IsFresh s ms → All (Fits work) ms → All (Fits work') ms
  Fits-IsFresh [] f h = tt
  Fits-IsFresh (m ∷ ms) (f, fs) ((a, b), hs) = ((same m.stream f ∙ a, b), Fits-IsFresh ms fs hs)

  IsFresh-of : (m : Managed) (ms : List Managed) → m.stream ≡ s → IsFresh m.stream ms → IsFresh s ms
  IsFresh-of m ms e f = rw (← e) f

  pub Fits-replace :
      (new : Managed) (ms : List Managed)
      → AreDistinct ms
      → Fits work' new
      → All (Fits work) ms
      → All (Fits work') (replace s new ms)
  unfolding replace
  Fits-replace new [] d n h = tt
  Fits-replace new (m ∷ ms) (d, ds) n ((a, b), hs) = elim (Bool-cases (m.stream == s)) [
    | inl here ↦
        let e = (==_iff m.stream s).0 here in rw here (n, Fits-IsFresh ms (IsFresh-of m ms e d) hs)
    | inr there ↦ rw there ((same m.stream there ∙ a, b), Fits-replace new ms ds n hs)
  ]

  pub Fits-erase :
      (ms : List Managed) → AreDistinct ms → All (Fits work) ms → All (Fits work') (erase s ms)
  unfolding erase
  Fits-erase [] d h = tt
  Fits-erase (m ∷ ms) (d, ds) ((a, b), hs) = elim (Bool-cases (m.stream == s)) [
    | inl here ↦
        let e = (==_iff m.stream s).0 here in rw here (Fits-IsFresh ms (IsFresh-of m ms e d) hs)
    | inr there ↦ rw there ((same m.stream there ∙ a, b), Fits-erase ms ds hs)
  ]

pub Fits-find_entry :
    (s : ℕ) (work : ℕ → ℕ) (old : Managed) (ms : List Managed)
    → find_entry s ms ≡ some old
    → All (Fits work) ms
    → Fits work old
unfolding find_entry
Fits-find_entry s work old [] e h = cc
Fits-find_entry s work old (m ∷ ms) e (h, hs) = elim (Bool-cases (m.stream == s)) [
  | inl here ↦ let same : m ≡ old = ground (arith, e, here) in rw (← same) h
  | inr there ↦
      let later : find_entry s ms ≡ some old = ground (arith, e, there) in
      Fits-find_entry s work old ms later hs
]

pub Fits-same :
    (work work' : ℕ → ℕ) (ms : List Managed)
    → ((t : ℕ) → work' t ≡ work t)
    → All (Fits work) ms
    → All (Fits work') ms
Fits-same work work' [] e h = tt
Fits-same work work' (m ∷ ms) e ((a, b), hs) = ((e m.stream ∙ a, b), Fits-same work work' ms e hs)
