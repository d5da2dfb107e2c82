-- ===== src/Connections/Calls.antt =====
-- The call that manages a connection, and the scan of a round of maintenance, keep the invariant of the controller.
use dnss_cpp.Common.{
  if◌then◌else◌, ℕ, ◌+◌, ◌≡◌, refl, sym, ap, ◌∙◌, Bool, false, List, [], ◌∷◌, ◌++◌, arith, ==_iff,
  length, All, Bool-cases, inl, inr,
}
use dnss_cpp.Http.Url.{Address}
use dnss_cpp.Connections.{work_of, Managed, Work, Controller, bit, manage}
use dnss_cpp.Connections.Rounds.{is_down, mark_down, scan_down}
use dnss_cpp.Connections.Entries.{count_connected, IsFresh, AreDistinct, count_work}
use dnss_cpp.Connections.Invariant.{Fits, Holds, Fits-IsFresh, Fits-same}

count_connected-append :
    (ms : List Managed) (m : Managed)
    → count_connected (ms ++ (m ∷ [])) ≡ count_connected ms + bit m.connected
count_connected-append [] m = omega arith
count_connected-append (k ∷ ks) m = omega (arith, count_connected-append ks m)

All-append :
    (P : Managed → Type 0) (ms : List Managed) (m : Managed)
    → All P ms
    → P m
    → All P (ms ++ (m ∷ []))
All-append P [] m hs h = (h, tt)
All-append P (k ∷ ks) m (g, gs) h = (g, All-append P ks m gs h)

AreDistinct-append :
    (ms : List Managed) (m : Managed)
    → AreDistinct ms
    → IsFresh m.stream ms
    → AreDistinct (ms ++ (m ∷ []))
AreDistinct-append [] m d f = (tt, tt)
AreDistinct-append (k ∷ ks) m (d, ds) (f, fs) = (
  All-append _ ks m d (ground (arith, f, ==_iff m.stream k.stream, ==_iff k.stream m.stream)),
  AreDistinct-append ks m ds fs,
)

-- A stream that is not managed and has no work is managed.
pub manage-Holds :
    (owed : List Work) (now : ℕ) (address : Address) (s : ℕ) (connected : Bool) (c : Controller)
    → Holds owed c
    → IsFresh s c.managed
    → count_work s c.reconnect_queue + count_work s c.in_flight + count_work s owed ≡ 0
    → Holds owed (manage now address s connected c)
unfolding manage
manage-Holds owed now address s connected c (a, b, d, f) fresh idle = (
  sym (count_connected-append c.managed _ ∙ ap (λ n. n + bit connected) (sym a)),
  refl,
  AreDistinct-append c.managed _ d fresh,
  All-append _ c.managed _ f (omega (arith, idle), (λ p. cc)),
)

-- Marking the entries that are down changes no stream and no counter.
module _ where
  mark_down-same :
      (ms : List Managed)
      → (count_connected (mark_down ms) ≡ count_connected ms) × (length (mark_down ms) ≡ length ms)
  unfolding mark_down is_down
  mark_down-same [] = (refl, refl)
  mark_down-same (m ∷ ms) = ground (arith, mark_down-same ms)

  IsFresh-mark_down : (s : ℕ) (ms : List Managed) → IsFresh s ms → IsFresh s (mark_down ms)
  unfolding mark_down is_down
  IsFresh-mark_down s [] h = tt
  IsFresh-mark_down s (m ∷ ms) (h, hs) = ground (arith, IsFresh-mark_down s ms hs)

  pub AreDistinct-mark_down : (ms : List Managed) → AreDistinct ms → AreDistinct (mark_down ms)
  unfolding mark_down is_down
  AreDistinct-mark_down [] h = tt
  AreDistinct-mark_down (m ∷ ms) (h, hs) =
      ground (arith, IsFresh-mark_down m.stream ms h, AreDistinct-mark_down ms hs)

-- The work that a scan owes, in the order of the indices.
abbrev pub works_down : List Managed → List Work
works_down [] = []
works_down (m ∷ ms) = if is_down m then work_of m ∷ works_down ms else works_down ms

works_down-none : (s : ℕ) (ms : List Managed) → IsFresh s ms → count_work s (works_down ms) ≡ 0
works_down-none s [] h = refl
works_down-none s (m ∷ ms) (h, hs) = ground (arith, works_down-none s ms hs)

mark_down-Fits :
    (work : ℕ → ℕ) (ms : List Managed)
    → AreDistinct ms
    → All (Fits work) ms
    → All (Fits (λ t. work t + count_work t (works_down ms))) (mark_down ms)
unfolding mark_down is_down
mark_down-Fits work [] d h = tt
mark_down-Fits work (m ∷ ms) (d, ds) ((a, b), hs) =
    let later = mark_down-Fits work ms ds hs in
    let none_later = works_down-none m.stream ms d in
    (
      elim (Bool-cases (is_down m)) [
        | inl down ↦
            let flags : (m.reconnect_pending ≡ false) × (m.connected ≡ false) =
              ground (arith, down) in
            rw down (ground (arith, a, none_later, flags, ==_iff m.stream m.stream), (λ p. flags.1))
        | inr up ↦ rw up (ground (arith, a, none_later), b)
      ],
      Fits-IsFresh m.stream (λ t. work t + count_work t (works_down ms)) _
          (λ t u. ground (arith, u, ==_iff m.stream t, ==_iff t m.stream)) (mark_down ms)
          (IsFresh-mark_down m.stream ms d) later,
    )

-- The marks of a scan owe the work for what was down.
pub scan_down-Holds : (c : Controller) → Holds [] c → Holds (works_down c.managed) (scan_down c)
unfolding scan_down
scan_down-Holds c (a, b, d, f) =
    let same = mark_down-same c.managed in
    (
      a ∙ sym same.0,
      b ∙ sym same.1,
      AreDistinct-mark_down c.managed d,
      Fits-same _ _ (mark_down c.managed) (λ t. omega arith) (mark_down-Fits _ c.managed d f),
    )
