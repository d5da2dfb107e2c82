-- ===== src/Protocol/Name/Bounds.antt =====
-- `wireToName` stays in its buffer and ends, for any bytes: wireToName of dns_protocol.hpp.
use dnss_cpp.Common.{
  ℕ, zero, suc, ◌+◌, ◌-◌, ◌*◌, ◌≤◌, ◌<◌, ◌≡◌, Bool, true, false, Option, none, some, List, length,
  arith, leb, ◌==◌, bit_and, Ensures, Ensures->>=, inl, inr, Bool-cases, ap,
}
use dnss_cpp.Protocol.Buffer.{read_below, read_range_below}
use dnss_cpp.Protocol.Name.{
  Scan, Move, next, finished, end_of_name, follow_pointer, read_label, on_length, scan_step, scan,
  start_at, wire_to_name,
}

-- Where the caller's pointer will stand once the name is read.
abbrev Resumes : ℕ → ℕ → Bool → Option ℕ → ℕ → Type 0
Resumes size p false (some q) pos = ⊥
Resumes size p false none pos = p ≤ pos
Resumes size p true none pos = ⊥
Resumes size p true (some q) pos = (p < q) × (q ≤ size)

record Scanning (buf : List ℕ) (p : ℕ) (s : Scan) : Type 0 where
  few : s.jump_count ≤ 10
  resumes : Resumes (length buf) p s.jumped s.saved s.pos

-- What is left of the ten jumps, and of the buffer.
measure : List ℕ → Scan → ℕ
measure buf s = (10 - s.jump_count) * suc (length buf) + (length buf - s.pos)

abbrev Moves : List ℕ → ℕ → Scan → Move → Type 0
Moves buf p s (next t) = Scanning buf p t × (measure buf t < measure buf s)
Moves buf p s (finished name q) = (p < q) × (q ≤ length buf)

one_jump_less : (j n : ℕ) → j < 10 → (10 - (j + 1)) * n + n ≡ (10 - j) * n
one_jump_less j n h =
    let e : 10 - j ≡ 1 + (10 - (j + 1)) = omega arith in omega (arith, ap (λ (t : ℕ). t * n) e)

end_of_name-Moves :
    (buf : List ℕ) (p : ℕ) (s : Scan)
    → s.pos < length buf
    → Scanning buf p s
    → Moves buf p s (end_of_name s)
unfolding end_of_name
end_of_name-Moves buf p s h v = ground arith

follow_pointer-Moves :
    (buf : List ℕ) (p : ℕ) (s : Scan) (len : ℕ)
    → s.pos < length buf
    → Scanning buf p s
    → Ensures (Moves buf p s) (follow_pointer buf s len)
unfolding follow_pointer measure
follow_pointer-Moves buf p s len h v = elim (Bool-cases (leb (length buf) (s.pos + 1))) [
  | inl short ↦ ground arith
  | inr long ↦
      let (x, e) = read_below buf (s.pos + 1) (ground arith) in
      ground (arith, e, one_jump_less s.jump_count (suc (length buf)))
]

read_label-Moves :
    (buf : List ℕ) (p : ℕ) (s : Scan) (len : ℕ)
    → s.pos < length buf
    → Scanning buf p s
    → Ensures (Moves buf p s) (read_label buf s len)
unfolding read_label measure
read_label-Moves buf p s len h v = ground (arith, read_range_below buf (s.pos + 1) len)

on_length-Moves :
    (buf : List ℕ) (p : ℕ) (s : Scan) (len : ℕ)
    → s.pos < length buf
    → Scanning buf p s
    → Ensures (Moves buf p s) (on_length buf s len)
unfolding on_length
on_length-Moves buf p s len h v = elim (Bool-cases (len == 0)) [
  | inl e ↦ rw e (end_of_name-Moves buf p s h v)
  | inr e ↦ elim (Bool-cases (bit_and len 0xC0 == 0xC0)) [
    | inl c ↦ rw (e, c) (follow_pointer-Moves buf p s len h v)
    | inr c ↦ rw (e, c) (read_label-Moves buf p s len h v)
  ]
]

scan_step-Moves :
    (buf : List ℕ) (p : ℕ) (s : Scan) → Scanning buf p s → Ensures (Moves buf p s) (scan_step buf s)
unfolding scan_step
scan_step-Moves buf p s v = elim (Bool-cases (leb (length buf) s.pos)) [
  | inl e ↦ rw e tt
  | inr e ↦
      let (x, r) = read_below buf s.pos (ground arith) in
      rw (e, r) (on_length-Moves buf p s x (ground arith) v)
]

abbrev pub Placed : List ℕ → ℕ → List ℕ × ℕ → Type 0
Placed buf p (name, q) = (p < q) × (q ≤ length buf)

scan-Placed :
    (fuel : ℕ) (buf : List ℕ) (p : ℕ) (s : Scan)
    → measure buf s < fuel
    → Scanning buf p s
    → Ensures (Placed buf p) (scan fuel buf s)
unfolding scan
scan-Placed zero buf p s h v = absurd (omega arith)
scan-Placed (suc fuel) buf p s h v =
    Ensures->>= (Moves buf p s) (Placed buf p) (scan_step buf s) _ (scan_step-Moves buf p s v)
      (elim [
        | next t ↦ λ (w, less). scan-Placed fuel buf p t (omega arith) w
        | finished name q ↦ λ w. w
      ])

-- Reading a name, at any position of any buffer, throws or returns: it ends within its fuel and never
-- reads outside the buffer. When it returns, the pointer stands behind where it started, and at most
-- at the end of the buffer.
pub wire_to_name-Placed : (buf : List ℕ) (p : ℕ) → Ensures (Placed buf p) (wire_to_name buf p)
unfolding wire_to_name measure
wire_to_name-Placed buf p =
    scan-Placed _ buf p (start_at p) (omega arith)
      (record { few = omega arith; resumes = omega arith })
