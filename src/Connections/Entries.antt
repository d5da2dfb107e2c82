-- ===== src/Connections/Entries.antt =====
-- The list of managed connections under the writes of the controller: the count of the connected ones,
-- and what is kept of a property of the entries.
use dnss_cpp.Common.{
  ℕ, suc, zero, ◌+◌, ◌≡◌, refl, false, none, some, List, [], ◌∷◌, ◌++◌, arith, ◌==◌, ==_iff,
  if◌then◌else◌, length, get_elem?, All,
}
use dnss_cpp.Connections.{Managed, Work, bit, find_entry, replace, erase, cancel}

abbrev pub count_connected : List Managed → ℕ
count_connected [] = 0
count_connected (m ∷ ms) = bit m.connected + count_connected ms

-- No other entry of the list is that of the stream.
abbrev pub IsFresh : ℕ → List Managed → Type 0
IsFresh s ms = All (λ m. (m.stream == s) ≡ false) ms

abbrev pub AreDistinct : List Managed → Type 0
AreDistinct [] = Unit
AreDistinct (m ∷ ms) = IsFresh m.stream ms × AreDistinct ms

-- How much work there is for a stream.
abbrev pub count_work : ℕ → List Work → ℕ
count_work s [] = 0
count_work s (w ∷ ws) = (if w.stream == s then 1 else 0) + count_work s ws

pub count_work-append :
    (s : ℕ) (xs ys : List Work) → count_work s (xs ++ ys) ≡ count_work s xs + count_work s ys
count_work-append s [] ys = omega arith
count_work-append s (x ∷ xs) ys = ground (arith, count_work-append s xs ys)

pub count_work-cancel :
    (s t : ℕ) (ws : List Work)
    → count_work t (cancel s ws) ≡ (if t == s then 0 else count_work t ws)
unfolding cancel
count_work-cancel s t [] = ground arith
count_work-cancel s t (w ∷ ws) = ground (arith, count_work-cancel s t ws)

pub length-replace :
    (s : ℕ) (new : Managed) (ms : List Managed) → length (replace s new ms) ≡ length ms
unfolding replace
length-replace s new [] = refl
length-replace s new (m ∷ ms) = ground (arith, length-replace s new ms)

module _ (s : ℕ) (old : Managed) where
  pub find_entry-stream : (ms : List Managed) → find_entry s ms ≡ some old → old.stream ≡ s
  unfolding find_entry
  find_entry-stream [] e = cc
  find_entry-stream (m ∷ ms) e = ground (arith, e, ==_iff m.stream s, find_entry-stream ms)

  pub count_connected-replace :
      (new : Managed) (ms : List Managed)
      → find_entry s ms ≡ some old
      → count_connected (replace s new ms) + bit old.connected
        ≡ count_connected ms + bit new.connected
  unfolding find_entry replace
  count_connected-replace new [] e = cc
  count_connected-replace new (m ∷ ms) e = ground (arith, e, count_connected-replace new ms)

  pub count_connected-erase :
      (ms : List Managed)
      → find_entry s ms ≡ some old
      → (count_connected (erase s ms) + bit old.connected ≡ count_connected ms)
        × (length (erase s ms) + 1 ≡ length ms)
  unfolding find_entry erase
  count_connected-erase [] e = cc
  count_connected-erase (m ∷ ms) e = ground (arith, e, count_connected-erase ms)

pub IsFresh-replace :
    (s t : ℕ) (new : Managed) (ms : List Managed)
    → new.stream ≡ s
    → IsFresh t ms
    → IsFresh t (replace s new ms)
unfolding replace
IsFresh-replace s t new [] e h = tt
IsFresh-replace s t new (m ∷ ms) e (h, hs) =
    ground (arith, ==_iff m.stream s, IsFresh-replace s t new ms e hs)

pub AreDistinct-replace :
    (s : ℕ) (new : Managed) (ms : List Managed)
    → new.stream ≡ s
    → AreDistinct ms
    → AreDistinct (replace s new ms)
unfolding replace
AreDistinct-replace s new [] e h = tt
AreDistinct-replace s new (m ∷ ms) e (h, hs) = ground (
  arith,
  ==_iff m.stream s,
  IsFresh-replace s m.stream new ms e h,
  AreDistinct-replace s new ms e hs,
)

pub IsFresh-erase : (s t : ℕ) (ms : List Managed) → IsFresh t ms → IsFresh t (erase s ms)
unfolding erase
IsFresh-erase s t [] h = tt
IsFresh-erase s t (m ∷ ms) (h, hs) = ground (arith, IsFresh-erase s t ms hs)

pub AreDistinct-erase : (s : ℕ) (ms : List Managed) → AreDistinct ms → AreDistinct (erase s ms)
unfolding erase
AreDistinct-erase s [] h = tt
AreDistinct-erase s (m ∷ ms) (h, hs) =
    ground (arith, IsFresh-erase s m.stream ms h, AreDistinct-erase s ms hs)

pub find_entry-replace :
    (s : ℕ) (old new : Managed) (ms : List Managed)
    → find_entry s ms ≡ some old
    → new.stream ≡ s
    → find_entry s (replace s new ms) ≡ some new
unfolding find_entry replace
find_entry-replace s old new [] e n = cc
find_entry-replace s old new (m ∷ ms) e n =
    ground (arith, e, n, ==_iff new.stream s, find_entry-replace s old new ms)

pub IsFresh-find_entry : (s : ℕ) (ms : List Managed) → find_entry s ms ≡ none → IsFresh s ms
unfolding find_entry
IsFresh-find_entry s [] e = tt
IsFresh-find_entry s (m ∷ ms) e = ground (arith, e, IsFresh-find_entry s ms)

other_at :
    (i : ℕ) (m k : Managed) (ks : List Managed)
    → IsFresh k.stream ks
    → get_elem? ks i ≡ some m
    → (k.stream == m.stream) ≡ false
other_at i m k [] d e = cc
other_at zero m k (x ∷ xs) (d, ds) e = ground (arith, d, e)
other_at (suc i) m k (x ∷ xs) (d, ds) e = other_at i m k xs ds e

-- The entry at an index is the one that is found for its stream.
pub find_entry-get_elem? :
    (i : ℕ) (m : Managed) (ms : List Managed)
    → AreDistinct ms
    → get_elem? ms i ≡ some m
    → find_entry m.stream ms ≡ some m
unfolding find_entry
find_entry-get_elem? i m [] d e = cc
find_entry-get_elem? zero m (k ∷ ks) (d, ds) e = ground (arith, e, ==_iff k.stream m.stream)
find_entry-get_elem? (suc i) m (k ∷ ks) (d, ds) e =
    ground (arith, find_entry-get_elem? i m ks ds e, other_at i m k ks d e)
