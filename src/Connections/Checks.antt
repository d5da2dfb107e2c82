-- ===== src/Connections/Checks.antt =====
-- What a round of maintenance makes of each entry.
use dnss_cpp.Common.{
  ℕ, ◌+◌, ◌≡◌, refl, sym, ap, ◌∙◌, Bool, true, false, not, ◌&&◌, some, List, [], ◌∷◌, ◌++◌, arith,
  ◌==◌, ==_iff, if◌then◌else◌, length, length-append, get_elem?, map, All, Bool-cases, inl, inr,
}
use dnss_cpp.Connections.{Managed, Controller, replace, lose, fail_check}
use dnss_cpp.Connections.Rounds.{
  is_down, mark_down, indices_down, push_work, push_works, scan_down, select, fail_checks, is_due,
  run_round,
}
use dnss_cpp.Connections.Entries.{IsFresh, AreDistinct}
use dnss_cpp.Connections.Calls.{AreDistinct-mark_down}

-- A failed check, and a connection that was down.
abbrev checked : (Managed → Bool) → (ℕ → Bool) → Managed → Managed
checked test healthy m =
    if test m && not (healthy m.stream)
    then record m { connected = false; reconnect_pending = true }
    else m

replace-append :
    (m new : Managed) (pre ms : List Managed)
    → IsFresh m.stream pre
    → replace m.stream new (pre ++ (m ∷ ms)) ≡ pre ++ (new ∷ ms)
unfolding replace
replace-append m new [] ms f = rw (==_iff m.stream m.stream).1 refl
replace-append m new (k ∷ ks) ms (f, fs) = rw (f, replace-append m new ks ms fs) refl

get_elem?-append :
    (pre ms : List Managed) (m : Managed) → get_elem? (pre ++ (m ∷ ms)) (length pre) ≡ some m
get_elem?-append [] ms m = refl
get_elem?-append (k ∷ ks) ms m = get_elem?-append ks ms m

-- A failed check at the entry of its stream.
fail_check-here :
    (pre ms : List Managed) (m : Managed) (c : Controller)
    → c.managed ≡ pre ++ (m ∷ ms)
    → IsFresh m.stream pre
    → (fail_check (length pre, m.stream) c).managed
      ≡ pre ++ (record m { connected = false; reconnect_pending = true } ∷ ms)
unfolding fail_check lose
fail_check-here pre ms m c e f =
    let at : get_elem? c.managed (length pre) ≡ some m = rw e (get_elem?-append pre ms m) in
    rw (fail_check, at, (==_iff m.stream m.stream).1 refl, lose, e)
      (replace-append m (record m { connected = false; reconnect_pending = true }) pre ms f)

IsFresh-snoc :
    (s : ℕ) (pre : List Managed) (m : Managed)
    → IsFresh s pre
    → (m.stream == s) ≡ false
    → IsFresh s (pre ++ (m ∷ []))
IsFresh-snoc s [] m f e = (e, tt)
IsFresh-snoc s (k ∷ ks) m (f, fs) e = (f, IsFresh-snoc s ks m fs e)

append-snoc :
    (pre : List Managed) (m : Managed) (ms : List Managed)
    → (pre ++ (m ∷ [])) ++ ms ≡ pre ++ (m ∷ ms)
append-snoc [] m ms = refl
append-snoc (k ∷ ks) m ms = ap (λ xs. k ∷ xs) (append-snoc ks m ms)

-- No entry of the first list has a stream of the second.
abbrev AreApart : List Managed → List Managed → Type 0
AreApart pre ms = All (λ m. IsFresh m.stream pre) ms

AreApart-snoc :
    (pre ms : List Managed) (m : Managed)
    → AreApart pre ms
    → IsFresh m.stream ms
    → AreApart (pre ++ (m ∷ [])) ms
AreApart-snoc pre [] m a f = tt
AreApart-snoc pre (k ∷ ks) m (a, rest) (f, fs) = (
  IsFresh-snoc k.stream pre m a
      (ground (arith, f, ==_iff m.stream k.stream, ==_iff k.stream m.stream)),
  AreApart-snoc pre ks m rest fs,
)

module _ (test : Managed → Bool) (healthy : ℕ → Bool) where
  fail_checks-map :
      (pre ms : List Managed) (c : Controller)
      → c.managed ≡ pre ++ ms
      → AreDistinct ms
      → AreApart pre ms
      → (fail_checks healthy (select test (length pre) ms) c).managed
        ≡ pre ++ map (checked test healthy) ms
  unfolding fail_checks select
  fail_checks-map pre [] c e d a = e
  fail_checks-map pre (m ∷ ms) c e (d, ds) (a, rest) =
      let onward : (n : Managed) (b : Controller)
          → n.stream ≡ m.stream
          → b.managed ≡ pre ++ (n ∷ ms)
          → (fail_checks healthy (select test (length pre + 1) ms) b).managed
            ≡ pre ++ (n ∷ map (checked test healthy) ms) =
        λ n b s k.
          let same : b.managed ≡ (pre ++ (n ∷ [])) ++ ms = k ∙ sym (append-snoc pre n ms) in
          let fresh : IsFresh n.stream ms = rw s d in
          let ih =
            fail_checks-map (pre ++ (n ∷ [])) ms b same ds (AreApart-snoc pre ms n rest fresh) in
          ap (λ i. (fail_checks healthy (select test i ms) b).managed)
            (sym (length-append pre (n ∷ [])))
          ∙ ih
          ∙ append-snoc pre n (map (checked test healthy) ms) in
      elim (Bool-cases (test m)) [
        | inr off ↦ rw (off) (onward m c refl e)
        | inl on ↦ elim (Bool-cases (healthy m.stream)) [
          | inl good ↦ rw (on, fail_checks, good) (onward m c refl e)
          | inr bad ↦
              rw (on, fail_checks, bad)
                (onward (record m { connected = false; reconnect_pending = true })
                  (fail_check (length pre, m.stream) c) refl (fail_check-here pre ms m c e a))
        ]
      ]

-- What a round says of one entry: a connection that is down gets work, one that is due and fails its
-- check is lost, and any other stays as it is.
abbrev pub after_round : ℕ → (ℕ → Bool) → Managed → Managed
after_round now healthy m =
    if is_down m
    then record m { reconnect_pending = true }
    else if is_due now m && not (healthy m.stream)
    then record m { connected = false; reconnect_pending = true }
    else m

AreApart-nil : (ms : List Managed) → AreApart [] ms
AreApart-nil [] = tt
AreApart-nil (m ∷ ms) = (tt, AreApart-nil ms)

-- An entry that is down is not due.
select-mark_down :
    (now i : ℕ) (ms : List Managed)
    → select (is_due now) i ms ≡ select (is_due now) i (mark_down ms)
unfolding select is_due is_down mark_down
select-mark_down now i [] = refl
select-mark_down now i (m ∷ ms) = ground (arith, select-mark_down now (i + 1) ms)

map-mark_down :
    (now : ℕ) (healthy : ℕ → Bool) (ms : List Managed)
    → map (checked (is_due now) healthy) (mark_down ms) ≡ map (after_round now healthy) ms
unfolding is_due is_down mark_down
map-mark_down now healthy [] = refl
map-mark_down now healthy (m ∷ ms) = ground (arith, map-mark_down now healthy ms)

push_works_managed : (idxs : List ℕ) (c : Controller) → (push_works idxs c).managed ≡ c.managed
unfolding push_works push_work
push_works_managed [] c = refl
push_works_managed (idx ∷ idxs) c = push_works_managed idxs (push_work idx c) ∙ ground arith

-- Where no stream is managed twice, a round of maintenance makes of each entry what its own state and
-- the health check of its own stream say: a connection that is down and does not wait comes to wait for
-- a reconnect, one that is due and fails its check is marked down and waits, and any other entry, as
-- well as the order of the entries, stays as it was.
pub run_round-after_round :
    (now : ℕ) (healthy : ℕ → Bool) (c : Controller)
    → AreDistinct c.managed
    → (run_round now healthy c).managed ≡ map (after_round now healthy) c.managed
unfolding run_round scan_down
run_round-after_round now healthy c d =
    let marked = mark_down c.managed in
    push_works_managed (indices_down 0 c.managed) _
    ∙ ap (λ xs. (fail_checks healthy xs (record c { managed = marked })).managed)
        (select-mark_down now 0 c.managed)
    ∙ fail_checks-map (is_due now) healthy [] marked (record c { managed = marked }) refl
        (AreDistinct-mark_down c.managed d) (AreApart-nil marked)
    ∙ map-mark_down now healthy c.managed
