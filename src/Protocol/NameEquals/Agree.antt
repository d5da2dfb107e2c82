-- ===== src/Protocol/NameEquals/Agree.antt =====
-- The SSE4.2 version of `nameEquals` of dns_protocol.hpp against the plain loop.
use dnss_cpp.Common.{
  ℕ, zero, suc, ◌/◌, ◌≡◌, refl, ◌∙◌, sym, Bool, true, false, not, ◌&&◌, ◌||◌, List, [], ◌∷◌, ◌++◌,
  map, ◌==◌, leb, if◌then◌else◌, length, take, drop, bit_and, bit_or, bit_xor, All, arith,
  length-take, length-drop, take-append-drop, All-take, All-drop, Bool-cases, inl, inr,
}
use mathlib.Core.Path.{ap₂}
use dnss_cpp.Common.Bytes.{IsByte, holds_bytes, holds_bytes_at}
use dnss_cpp.Protocol.NameEquals.{
  ci_eq, bytes_equal, name_equals, lanes, all_zero, all_marked, at_least_a, at_most_z, is_exact,
  chunk_equal, chunks_equal, name_equals_simd,
}

abbrev same : Bool → Bool → Bool
same true b = b
same false b = not b

-- What a chunk asks of a lane.
abbrev differs_in_case : ℕ → ℕ → Bool
differs_in_case x y = bit_and (bit_xor x y) 0xDF == 0

abbrev marked : ℕ → ℕ → Bool
marked x y = leb 0x80 (
    bit_or (is_exact (bit_xor x y))
      (bit_and (at_least_a (bit_or x 0x20)) (at_most_z (bit_or x 0x20))))

exact : ℕ → ℕ → Bool
exact x y = bit_xor x y == 0

-- For every pair of bytes: the tests of a lane together are the plain comparison, and an exact
-- lane passes them.
lane_table :
    holds_bytes (λ x y.
      same (differs_in_case x y && marked x y) (ci_eq x y) && (not (exact x y) || ci_eq x y))
    ≡ true
unfolding holds_bytes ci_eq exact
lane_table = refl

lane_facts :
    (x y : ℕ)
    → IsByte x
    → IsByte y
    → (same (differs_in_case x y && marked x y) (ci_eq x y) && (not (exact x y) || ci_eq x y))
      ≡ true
lane_facts x y hx hy =
    holds_bytes_at
      (λ x y.
        same (differs_in_case x y && marked x y) (ci_eq x y) && (not (exact x y) || ci_eq x y))
      x y lane_table hx hy

lane_equal : (x y : ℕ) → IsByte x → IsByte y → (differs_in_case x y && marked x y) ≡ ci_eq x y
lane_equal x y hx hy =
    split (differs_in_case x y && marked x y) (ci_eq x y) _ (lane_facts x y hx hy)
  where
    split : (a b c : Bool) → same a b && c ≡ true → a ≡ b
    split a b c h = ground arith

lane_exact : (x y : ℕ) → IsByte x → IsByte y → exact x y ≡ true → ci_eq x y ≡ true
lane_exact x y hx hy e = split (exact x y) (ci_eq x y) _ (lane_facts x y hx hy) e
  where
    split : (a b c : Bool) → c && (not a || b) ≡ true → a ≡ true → b ≡ true
    split a b c h k = ground arith

-- No difference at all.
exact-equal :
    (xs ys : List ℕ)
    → All IsByte xs
    → All IsByte ys
    → all_zero (lanes bit_xor xs ys) ≡ true
    → length xs ≡ length ys
    → bytes_equal xs ys ≡ true
unfolding bytes_equal
exact-equal [] ys vx vy h e = refl
exact-equal (x ∷ xs) [] vx vy h e = absurd (omega arith)
exact-equal (x ∷ xs) (y ∷ ys) (hx, vx) (hy, vy) h e = ground (
  arith,
  lane_exact x y hx hy (unfold exact in ground arith),
  exact-equal xs ys vx vy (ground arith) (omega arith),
)

abbrev in_case : List ℕ → List ℕ → Bool
in_case xs ys = all_zero (map (λ d. bit_and d 0xDF) (lanes bit_xor xs ys))

abbrev letters : List ℕ → List ℕ → Bool
letters xs ys = all_marked (
    lanes bit_or (map is_exact (lanes bit_xor xs ys)) (
      lanes bit_and (map at_least_a (map (λ x. bit_or x 0x20) xs))
        (map at_most_z (map (λ x. bit_or x 0x20) xs))))

regroup : (a b c d e f : Bool) → (a && c) ≡ e → (b && d) ≡ f → ((a && b) && (c && d)) ≡ (e && f)
regroup a b c d e f h k = ground arith

cased-equal :
    (xs ys : List ℕ)
    → All IsByte xs
    → All IsByte ys
    → length xs ≡ length ys
    → (in_case xs ys && letters xs ys) ≡ bytes_equal xs ys
unfolding bytes_equal
cased-equal [] ys vx vy e = refl
cased-equal (x ∷ xs) [] vx vy e = absurd (omega arith)
cased-equal (x ∷ xs) (y ∷ ys) (hx, vx) (hy, vy) e =
    regroup (differs_in_case x y) (in_case xs ys) (marked x y) (letters xs ys) _ _
      (lane_equal x y hx hy) (cased-equal xs ys vx vy (omega arith))

chunk-equal :
    (xs ys : List ℕ)
    → All IsByte xs
    → All IsByte ys
    → length xs ≡ length ys
    → chunk_equal xs ys ≡ bytes_equal xs ys
unfolding chunk_equal
chunk-equal xs ys vx vy e = elim (Bool-cases (all_zero (lanes bit_xor xs ys))) [
  | inl z ↦ rw (z, exact-equal xs ys vx vy z e)
  | inr z ↦ rw (z, ← cased-equal xs ys vx vy e) (choice (in_case xs ys) (letters xs ys))
]
  where
    choice : (a b : Bool) → (if a then b else false) ≡ (a && b)
    choice true b = refl
    choice false b = refl

bytes_equal-append :
    (us bs cs ds : List ℕ)
    → length us ≡ length cs
    → bytes_equal (us ++ bs) (cs ++ ds) ≡ (bytes_equal us cs && bytes_equal bs ds)
unfolding bytes_equal
bytes_equal-append [] bs [] ds e = refl
bytes_equal-append [] bs (c ∷ cs) ds e = absurd (omega arith)
bytes_equal-append (a ∷ us) bs [] ds e = absurd (omega arith)
bytes_equal-append (a ∷ us) bs (c ∷ cs) ds e =
    ground (arith, bytes_equal-append us bs cs ds (omega arith))

sizes : (n : ℕ) (a b : List ℕ) → length a ≡ length b → length (take n a) ≡ length (take n b)
sizes n a b e = omega (arith, length-take n a, length-take n b)

chunks-equal :
    (n : ℕ) (a b : List ℕ)
    → All IsByte a
    → All IsByte b
    → length a ≡ length b
    → chunks_equal n a b ≡ bytes_equal a b
unfolding chunks_equal
chunks-equal zero a b va vb e = refl
chunks-equal (suc n) a b va vb e =
    ap₂ ◌&&◌
      (chunk-equal (take 16 a) (take 16 b) (All-take IsByte 16 a va) (All-take IsByte 16 b vb)
        (sizes 16 a b e))
      (chunks-equal n (drop 16 a) (drop 16 b) (All-drop IsByte 16 a va) (All-drop IsByte 16 b vb)
        (omega (arith, length-drop 16 a, length-drop 16 b)))
    ∙ sym (bytes_equal-append (take 16 a) (drop 16 a) (take 16 b) (drop 16 b) (sizes 16 a b e))
    ∙ ap₂ bytes_equal (take-append-drop 16 a) (take-append-drop 16 b)

-- The version of `nameEquals` by chunks of 16 bytes and the one by single bytes give the same answer
-- on every two texts of bytes, of any lengths.
pub name_equals_simd-eq :
    (a b : List ℕ) → All IsByte a → All IsByte b → name_equals_simd a b ≡ name_equals a b
unfolding name_equals_simd name_equals
name_equals_simd-eq a b va vb = elim (Bool-cases (length a == length b)) [
  | inl e ↦ rw e (chunks-equal (length a / 16) a b va vb (ground arith))
  | inr e ↦ rw e
]
