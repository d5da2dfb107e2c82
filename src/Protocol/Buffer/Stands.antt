-- ===== src/Protocol/Buffer/Stands.antt =====
-- What stands at a position of a buffer: the ground for reading back what was written.
use dnss_cpp.Common.{ℕ, ◌+◌, ◌≤◌, ◌≡◌, sym, ◌∙◌, List, [], ◌∷◌, ◌++◌, length, drop, arith, ok}
use dnss_cpp.Protocol.Buffer.{read, read_range, read_at, read_range_at, drop_past, length_past}
use mathlib.Core.List.{append_assoc, append-nil}

pub record Stands (buf : List ℕ) (p : ℕ) (xs : List ℕ) : Type 0 where
  pub inside : p ≤ length buf
  pub rest : List ℕ
  pub here : drop p buf ≡ xs ++ rest

module _ (buf : List ℕ) (p : ℕ) where
  pub Stands-left : (xs ys : List ℕ) → Stands buf p (xs ++ ys) → Stands buf p xs
  Stands-left xs ys s = record {
    inside = s.inside;
    rest = ys ++ s.rest;
    here = s.here ∙ append_assoc xs ys s.rest;
  }

  pub Stands-end : (xs : List ℕ) → Stands buf p xs → p + length xs ≤ length buf
  Stands-end xs s = omega (arith, s.inside, length_past p buf xs s.rest s.here)

  pub Stands-right : (xs ys : List ℕ) → Stands buf p (xs ++ ys) → Stands buf (p + length xs) ys
  Stands-right xs ys s = record {
    inside = Stands-end xs (Stands-left xs ys s);
    rest = s.rest;
    here = drop_past p buf xs (ys ++ s.rest) (s.here ∙ append_assoc xs ys s.rest);
  }

  pub read-Stands : (x : ℕ) (xs : List ℕ) → Stands buf p (x ∷ xs) → read buf p ≡ ok x
  read-Stands x xs s = read_at buf p x s.here

  pub read_range-Stands : (xs : List ℕ) → Stands buf p xs → read_range buf p (length xs) ≡ ok xs
  read_range-Stands xs s = read_range_at buf p xs s.rest s.inside s.here

-- A whole buffer stands at its start.
pub Stands-whole : (xs : List ℕ) → Stands xs 0 xs
Stands-whole xs = record { inside = omega arith; rest = []; here = sym (append-nil xs) }
