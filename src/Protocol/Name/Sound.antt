-- ===== src/Protocol/Name/Sound.antt =====
-- `wireToName` of dns_protocol.hpp reads the names of the grammar, and no other.
use dnss_cpp.Common.{
  ℕ, zero, suc, ◌+◌, ◌-◌, ◌<◌, ◌≡◌, refl, sym, ap, ◌∙◌, ◌≢◌, List, [], ◌∷◌, length, arith, bit_and,
  ◌==◌, ltb, leb, ok, >>=-eq-ok, take, drop, ◌⊎◌, ◌↔◌, inl, inr, Bool-cases,
}
use dnss_cpp.Protocol.Buffer.{read, read_range, read_below, read_range_below}
use mathlib.Core.Path.{subst}
use dnss_cpp.Protocol.Name.{
  Scan, Move, end_of_name, follow_pointer, read_label, on_length, scan_step, scan, next, finished,
  start_at, rounds, wire_to_name,
}
use dnss_cpp.Protocol.Name.Labels.{add_labels}
use dnss_cpp.Protocol.Name.Grammar.{
  NameAt, root, label, pointer, resume, Kept, past_label, at_target, target-Kept, resume-target,
  wire_to_name-NameAt,
}

-- What a round found when it went on or ended.
abbrev Round : List ℕ → Scan → Move → Type 0
Round buf s m =
    ((read buf s.pos ≡ ok 0) × (m ≡ end_of_name s))
    ⊎ ((len : ℕ) × (l : List ℕ) × (read buf s.pos ≡ ok len)
        × (len ≢ 0)
        × (bit_and len 0xC0 ≢ 0xC0)
        × (read_range buf (s.pos + 1) len ≡ ok l)
        × (m ≡ next (past_label s len l)))
    ⊎ ((high : ℕ) × (low : ℕ) × (read buf s.pos ≡ ok high)
        × (bit_and high 0xC0 ≡ 0xC0)
        × (read buf (s.pos + 1) ≡ ok low)
        × (s.jump_count < 10)
        × (m ≡ next (at_target s high low)))

module _ (buf : List ℕ) (s : Scan) (m : Move) where
  read_label_inv :
      (len : ℕ)
      → read buf s.pos ≡ ok len
      → len ≢ 0
      → bit_and len 0xC0 ≢ 0xC0
      → read_label buf s len ≡ ok m
      → Round buf s m
  unfolding read_label
  read_label_inv len r n c e = elim (Bool-cases (ltb (length buf) (s.pos + 1 + len))) [
    | inl long ↦ absurd (ground arith)
    | inr fits ↦
        let t = read_range_below buf (s.pos + 1) len (ground arith) in
        inr (inl (len, take len (drop (s.pos + 1) buf), r, n, c, t, ground (arith, t)))
  ]

  follow_pointer_inv :
      (high : ℕ)
      → read buf s.pos ≡ ok high
      → bit_and high 0xC0 ≡ 0xC0
      → follow_pointer buf s high ≡ ok m
      → Round buf s m
  unfolding follow_pointer
  follow_pointer_inv high r c e = elim (Bool-cases (leb (length buf) (s.pos + 1))) [
    | inl short ↦ absurd (ground arith)
    | inr fits ↦
        let (low, t) = read_below buf (s.pos + 1) (ground arith) in
        inr (inr (high, low, r, c, t, ground (arith, t), ground (arith, t)))
  ]

  on_length_inv : (len : ℕ) → read buf s.pos ≡ ok len → on_length buf s len ≡ ok m → Round buf s m
  unfolding on_length
  on_length_inv len r e = elim (Bool-cases (len == 0)) [
    | inl z ↦ inl (ground arith, ground arith)
    | inr n ↦ elim (Bool-cases (bit_and len 0xC0 == 0xC0)) [
      | inl c ↦ follow_pointer_inv len r (ground arith) (ground arith)
      | inr c ↦ read_label_inv len r (ground arith) (ground arith) (ground arith)
    ]
  ]

  scan_step_inv : scan_step buf s ≡ ok m → Round buf s m
  unfolding scan_step
  scan_step_inv e = elim (Bool-cases (leb (length buf) s.pos)) [
    | inl short ↦ absurd (ground arith)
    | inr fits ↦
        let (len, r) = read_below buf s.pos (ground arith) in
        on_length_inv len r (ground (arith, r))
  ]

-- And nothing else is.
abbrev Reads : List ℕ → Scan → List ℕ → ℕ → Type 0
Reads buf s name e =
    (ls : List (List ℕ)) × (q : ℕ) × NameAt buf (10 - s.jump_count) s.pos ls q
    × (name ≡ add_labels s.name ls)
    × (e ≡ resume s q)

root_end :
    (fuel : ℕ) (buf : List ℕ) (s : Scan) (name : List ℕ) (e : ℕ)
    → Kept s.jumped s.saved
    → elim (end_of_name s) [ next t ↦ scan fuel buf t | finished n p ↦ ok (n, p) ] ≡ ok (name, e)
    → (name ≡ add_labels s.name []) × (e ≡ resume s (s.pos + 1))
unfolding end_of_name resume add_labels
root_end fuel buf s name e v r = ground arith

jump_left : (j : ℕ) → j < 10 → suc (10 - (j + 1)) ≡ 10 - j
jump_left j h = omega arith

scan_sound :
    (fuel : ℕ) (buf : List ℕ) (s : Scan) (name : List ℕ) (e : ℕ)
    → Kept s.jumped s.saved
    → scan fuel buf s ≡ ok (name, e)
    → Reads buf s name e
unfolding scan add_labels resume
scan_sound zero buf s name e v r = cc
scan_sound (suc fuel) buf s name e v r =
    let (m, step, more) = >>=-eq-ok (scan_step buf s) _ r in
    elim (scan_step_inv buf s m step) [
      | inl (z, em) ↦
          let (x, y) = root_end fuel buf s name e v (rw em at more) in
          ([], s.pos + 1, root z refl, x, y)
      | inr (inl (len, l, b, n, c, t, em)) ↦
          let (ls, q, d, x, y) =
            scan_sound fuel buf (past_label s len l) name e v (rw em at more) in
          (l ∷ ls, q, label b n c t d, x, y)
      | inr (inr (high, low, b, c, t, h, em)) ↦
          let (ls, q, d, x, y) =
            scan_sound fuel buf (at_target s high low) name e (target-Kept s high low v)
              (rw em at more) in
          (
            ls,
            s.pos + 2,
            subst (λ k. NameAt buf k s.pos ls (s.pos + 2)) (jump_left s.jump_count h)
                (pointer b c t d refl),
            x,
            y ∙ resume-target s high low q v,
          )
    ]

-- Whatever is read is a name of the grammar.
wire_to_name_sound :
    (buf : List ℕ) (p : ℕ) (name : List ℕ) (e : ℕ)
    → wire_to_name buf p ≡ ok (name, e)
    → (ls : List (List ℕ)) × NameAt buf 10 p ls e × (name ≡ add_labels [] ls)
unfolding wire_to_name resume
wire_to_name_sound buf p name e r =
    let (ls, q, d, x, y) = scan_sound (rounds buf) buf (start_at p) name e tt r in
    (ls, subst (λ q. NameAt buf 10 p ls q) (sym y) d, x)

-- `wireToName` returns a name and a position exactly if at the pointer stands a name of the grammar,
-- read through at most ten compression pointers: the name has its labels with dots between them,
-- and the position is behind it, or behind its first pointer if it has one.
pub wire_to_name_iff :
    (buf : List ℕ) (p : ℕ) (name : List ℕ) (e : ℕ)
    → (wire_to_name buf p ≡ ok (name, e))
      ↔ ((ls : List (List ℕ)) × NameAt buf 10 p ls e × (name ≡ add_labels [] ls))
wire_to_name_iff buf p name e = (
  wire_to_name_sound buf p name e,
  (λ (ls, d, x). wire_to_name-NameAt buf p d ∙ ap (λ n. ok (n, e)) (sym x)),
)
