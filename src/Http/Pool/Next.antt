-- ===== src/Http/Pool/Next.antt =====
-- Which connection `getNextConnection` takes.
use dnss_cpp.Common.{
  ℕ, zero, suc, ◌+◌, ◌-◌, ◌%◌, ◌^◌, ◌≤◌, ◌<◌, ◌≡◌, refl, sym, ap, ◌∙◌, true, false, Option, none,
  some, List, [], ◌∷◌, arith, leb, ◌==◌, length, get_elem?, Result, ok, throw, out_of_bounds,
  out_of_fuel, ◌>>=◌, Gives, Bool-cases, inl, inr, ==_iff, lt→ltb,
}
use native.Mathlib.Nat.{mod-lt, mod-eq_of_lt, add-mod_right}
use dnss_cpp.Protocol.Buffer.{get_elem?_below}
use dnss_cpp.Http.Pool.{
  Connection, UpstreamPool, is_free, occupy, find_free, start_of, take_connection,
  get_next_connection,
}

-- What the loop finds, and what it has passed over.
abbrev Finds : ℕ → ℕ → ℕ → List Connection → Option ℕ → Type 0
Finds n i start cs none =
    (j : ℕ) (c : Connection)
    → i ≤ j
    → j < i + n
    → get_elem? cs ((start + j) % length cs) ≡ some c
    → is_free c ≡ false
Finds n i start cs (some idx) = (c : Connection) × (get_elem? cs idx ≡ some c) × (is_free c ≡ true)

passed_over :
    (n i start : ℕ) (cs : List Connection) (c : Connection) (r : Result (Option ℕ))
    → get_elem? cs ((start + i) % length cs) ≡ some c
    → is_free c ≡ false
    → Gives (Finds n (i + 1) start cs) r
    → Gives (Finds (suc n) i start cs) r
passed_over n i start cs c (ok (some idx)) e busy k = k
passed_over n i start cs c (ok none) e busy k = λ j d a b f. elim (Bool-cases (j == i)) [
  | inl here ↦
      let same : j ≡ i = ground (arith, here) in
      let both = sym f ∙ ap (λ x. get_elem? cs ((start + x) % length cs)) same ∙ e in
      ground (arith, both, busy)
  | inr later ↦ k j d (ground (arith, later, a)) (omega (arith, b)) f
]
passed_over n i start cs c (throw x) e busy k = absurd k
passed_over n i start cs c out_of_bounds e busy k = absurd k
passed_over n i start cs c out_of_fuel e busy k = absurd k

find_free-Finds :
    (n i start : ℕ) (cs : List Connection)
    → 0 < length cs
    → Gives (Finds n i start cs) (find_free n i start cs)
unfolding find_free
find_free-Finds zero i start cs h = λ j c a b e. absurd (omega (arith, a, b))
find_free-Finds (suc n) i start cs h =
    let idx = (start + i) % length cs in
    let (c, e) = get_elem?_below cs idx (mod-lt (start + i) h) in
    elim (Bool-cases (is_free c)) [
      | inl free ↦ rw (find_free, e, free) (c, e, free)
      | inr busy ↦
          rw (find_free, e, busy)
            (passed_over n i start cs c (find_free n (i + 1) start cs) e busy
              (find_free-Finds n (i + 1) start cs h))
    ]

-- Every position is reached from `start` in as many rounds as there are connections.
reached : (start k n : ℕ) → start < n → k < n → (j : ℕ) × (j < n) × ((start + j) % n ≡ k)
reached start k n s h = elim (Bool-cases (leb start k)) [
  | inl after ↦
      (k - start, omega (arith, h), rw (sum start k (ground (arith, after))) (mod-eq_of_lt h))
  | inr before ↦ (
    k + n - start,
    ground (arith, before),
    rw (sum start (k + n) (omega (arith, s))) (add-mod_right k n ∙ mod-eq_of_lt h),
  )
]
  where
    sum : (a b : ℕ) → a ≤ b → a + (b - a) ≡ b
    sum a b h = omega (arith, h)

-- What a call does to a pool: it takes a free connection, or there is none and it takes none.
abbrev pub Takes : List Connection → Option ℕ × UpstreamPool → Type 0
Takes cs (none, pool) =
    (pool.connections ≡ cs)
    × ((k : ℕ) (c : Connection) → get_elem? cs k ≡ some c → is_free c ≡ false)
Takes cs (some idx, pool) =
    (pool.connections ≡ occupy idx cs)
    × ((c : Connection) × (get_elem? cs idx ≡ some c) × (is_free c ≡ true))

below_of : (cs : List Connection) (k : ℕ) (c : Connection) → get_elem? cs k ≡ some c → k < length cs
below_of [] k c e = cc
below_of (x ∷ xs) zero c e = omega arith
below_of (x ∷ xs) (suc k) c e = omega (arith, below_of xs k c e)

none_free :
    (cs : List Connection) (start : ℕ)
    → start < length cs
    → Finds (length cs) 0 start cs none
    → (k : ℕ) (c : Connection) → get_elem? cs k ≡ some c
    → is_free c ≡ false
none_free cs start s f k c e =
    let (j, below, at) = reached start k (length cs) s (below_of cs k c e) in
    f j c (omega arith) (omega (arith, below)) (ap (get_elem? cs) at ∙ e)

take_connection-Takes :
    (pool : UpstreamPool) (cs : List Connection) (start : ℕ) (r : Result (Option ℕ))
    → pool.connections ≡ cs
    → start < length cs
    → Gives (Finds (length cs) 0 start cs) r
    → Gives (Takes cs) (do found ← r; ok (take_connection pool found))
unfolding take_connection
take_connection-Takes pool cs start (ok none) e s k = (e, none_free cs start s k)
take_connection-Takes pool cs start (ok (some idx)) e s k = (ap (occupy idx) e, k)
take_connection-Takes pool cs start (throw x) e s k = absurd k
take_connection-Takes pool cs start out_of_bounds e s k = absurd k
take_connection-Takes pool cs start out_of_fuel e s k = absurd k

-- As long as the counter of a pool has not reached 2^31, a call returns. If a connection is free, that
-- is, connected and not in use, the call takes a free one and changes no other; if it takes none, then
-- none is free.
pub get_next_connection-Takes :
    (pool : UpstreamPool)
    → pool.next_conn < 2 ^ 31
    → Gives (Takes pool.connections) (get_next_connection pool)
unfolding get_next_connection start_of
get_next_connection-Takes pool h =
    let cs = pool.connections in
    let n = length cs in
    let counted = record pool { next_conn = (pool.next_conn + 1) % 2 ^ 32 } in
    elim (Bool-cases (n == 0)) [
      | inl empty ↦
          rw empty
            (refl, (λ k c e. absurd (omega (arith, below_of cs k c e, (==_iff n 0).0 empty))))
      | inr some_are ↦
          let positive : 0 < n = ground (arith, some_are) in
          let within = mod-lt pool.next_conn positive in
          rw (some_are, lt→ltb pool.next_conn (2 ^ 31) h)
            (take_connection-Takes counted cs (pool.next_conn % n)
              (find_free n 0 (pool.next_conn % n) cs) refl within
              (find_free-Finds n 0 (pool.next_conn % n) cs positive))
    ]
