-- ===== src/Protocol/Buffer.antt =====
-- A byte buffer between `data` and `end`: a list of bytes, and positions in it for pointers.
-- A read outside the buffer is `out_of_bounds`, so code that answers has checked its bounds.
pub mod Stands
use dnss_cpp.Common.{
  ℕ, zero, suc, ◌+◌, ◌-◌, ◌≤◌, ◌<◌, ◌≡◌, refl, sym, ap, ◌∙◌, none, some, List, [], ◌∷◌, ◌++◌, arith,
  leb, if◌then◌else◌, length, get_elem?, take, drop, length-append, length-drop, Result, ok,
  out_of_bounds,
}

unfoldable pub read : List ℕ → ℕ → Result ℕ
read buf p = elim (get_elem? buf p) [ none ↦ out_of_bounds | some b ↦ ok b ]

-- `memcpy` or `append` of `n` bytes from position `p`.
unfoldable pub read_range : List ℕ → ℕ → ℕ → Result (List ℕ)
read_range buf p n = if leb (p + n) (length buf) then ok (take n (drop p buf)) else out_of_bounds

zero_add : (m : ℕ) → zero + m ≡ m
zero_add m = omega arith

suc_add : (n m : ℕ) → suc n + m ≡ suc (n + m)
suc_add n m = omega arith

-- What stands at a position is said by what is left of the buffer from there on.
module _ {ℓ} {A : Type ℓ} where
  pub drop-append : (xs ys : List A) → drop (length xs) (xs ++ ys) ≡ ys
  drop-append [] ys = refl
  drop-append (x ∷ xs) ys = drop-append xs ys

  drop-nil : (n : ℕ) → ◌≡◌ {A = List A} (drop n []) []
  drop-nil zero = refl
  drop-nil (suc n) = refl

  drop-drop : (n m : ℕ) (xs : List A) → drop (n + m) xs ≡ drop m (drop n xs)
  drop-drop zero m xs = rw (zero_add m)
  drop-drop (suc n) m [] = rw (suc_add n m) (sym (drop-nil m))
  drop-drop (suc n) m (x ∷ xs) = rw (suc_add n m) (drop-drop n m xs)

  pub take-append : (xs ys : List A) → take (length xs) (xs ++ ys) ≡ xs
  take-append [] ys = refl
  take-append (x ∷ xs) ys = ap (◌∷◌ x) (take-append xs ys)

  get_elem?-drop :
      (p : ℕ) (xs : List A) {x : A} {ys : List A} → drop p xs ≡ x ∷ ys → get_elem? xs p ≡ some x
  get_elem?-drop zero [] e = ground arith
  get_elem?-drop zero (y ∷ xs) e = ground arith
  get_elem?-drop (suc p) [] e = ground arith
  get_elem?-drop (suc p) (y ∷ xs) e = get_elem?-drop p xs e

  -- Past the bytes `xs` stands what follows them.
  pub drop_past :
      (p : ℕ) (buf xs : List A) (ys : List A)
      → drop p buf ≡ xs ++ ys
      → drop (p + length xs) buf ≡ ys
  drop_past p buf xs ys e =
      drop-drop p (length xs) buf ∙ ap (drop (length xs)) e ∙ drop-append xs ys

  pub length_past :
      (p : ℕ) (buf xs : List A) (ys : List A)
      → drop p buf ≡ xs ++ ys
      → length xs + length ys ≡ length buf - p
  length_past p buf xs ys e = omega (arith, length-drop p buf, ap length e, length-append xs ys)

  pub get_elem?_below : (xs : List A) (p : ℕ) → p < length xs → (x : A) × (get_elem? xs p ≡ some x)
  get_elem?_below [] p h = absurd (omega arith)
  get_elem?_below (x ∷ xs) zero h = (x, refl)
  get_elem?_below (x ∷ xs) (suc p) h = get_elem?_below xs p (omega arith)

pub read_at : (buf : List ℕ) (p x : ℕ) {ys : List ℕ} → drop p buf ≡ x ∷ ys → read buf p ≡ ok x
unfolding read
read_at buf p x e = ground (arith, get_elem?-drop p buf e)

-- A read below the end finds some byte.
pub read_below : (buf : List ℕ) (p : ℕ) → p < length buf → (x : ℕ) × (read buf p ≡ ok x)
unfolding read
read_below buf p h = let (x, e) = get_elem?_below buf p h in (x, ground arith)

pub read_range_at :
    (buf : List ℕ) (p : ℕ) (xs : List ℕ) (ys : List ℕ)
    → p ≤ length buf
    → drop p buf ≡ xs ++ ys
    → read_range buf p (length xs) ≡ ok xs
unfolding read_range
read_range_at buf p xs ys fits e =
    ground (arith, length_past p buf xs ys e, ap (take (length xs)) e, take-append xs ys)

pub read_range_below :
    (buf : List ℕ) (p n : ℕ) → p + n ≤ length buf → read_range buf p n ≡ ok (take n (drop p buf))
unfolding read_range
read_range_below buf p n h = ground arith
