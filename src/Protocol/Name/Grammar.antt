-- ===== src/Protocol/Name/Grammar.antt =====
-- Names at a position of a message, with compression pointers, as `wireToName` of dns_protocol.hpp
-- takes them: a label has up to 191 bytes, where RFC 1035 allows 63.
use dnss_cpp.Common.{
  ℕ, zero, suc, ◌+◌, ◌*◌, ◌≤◌, ◌<◌, ◌≡◌, refl, sym, ap, ◌∙◌, ◌≢◌, Bool, true, false, Option, none,
  some, List, [], ◌∷◌, length, arith, bit_and, bit_or, ok, out_of_fuel, Ensures-ne-fuel, ◌⊎◌, inl,
  inr, if◌then◌else◌,
}
use dnss_cpp.Protocol.Buffer.{read, read_range}
use mathlib.Core.Path.{subst}
use dnss_cpp.Protocol.Name.{
  Scan, end_of_name, follow_pointer, read_label, on_length, scan_step, scan, next, start_at, rounds,
  wire_to_name, add_label,
}
use dnss_cpp.Protocol.Name.Bounds.{Placed, wire_to_name-Placed}
use dnss_cpp.Protocol.Name.Labels.{add_labels}

-- At `p` stands a name of these labels, read through at most `k` pointers in a row; `e` is the
-- position behind it, which is behind the first pointer if there is one.
pub data NameAt (buf : List ℕ) : ℕ → ℕ → List (List ℕ) → ℕ → Type 0 where
  root : {k p e : ℕ} → read buf p ≡ ok 0 → e ≡ p + 1 → NameAt buf k p [] e
  label :
      {k p e len : ℕ} {l : List ℕ} {ls : List (List ℕ)}
      → read buf p ≡ ok len
      → len ≢ 0
      → bit_and len 0xC0 ≢ 0xC0
      → read_range buf (p + 1) len ≡ ok l
      → NameAt buf k (p + 1 + len) ls e
      → NameAt buf k p (l ∷ ls) e
  pointer :
      {k p e high low target : ℕ} {ls : List (List ℕ)}
      → read buf p ≡ ok high
      → bit_and high 0xC0 ≡ 0xC0
      → read buf (p + 1) ≡ ok low
      → NameAt buf k (bit_or (bit_and high 0x3F * 256) low) ls target
      → e ≡ p + 2
      → NameAt buf (suc k) p ls e

read_inside : (buf : List ℕ) (p b : ℕ) → read buf p ≡ ok b → p < length buf
unfolding read
read_inside [] p b e = ground arith
read_inside (x ∷ xs) zero b e = omega arith
read_inside (x ∷ xs) (suc p) b e = omega (arith, read_inside xs p b e)

-- Where the caller goes on: behind the first pointer, or behind the name.
unfoldable pub resume : Scan → ℕ → ℕ
resume s e = if s.jumped then elim s.saved [ none ↦ e | some q ↦ q ] else e

abbrev pub Kept : Bool → Option ℕ → Type 0
Kept true none = ⊥
Kept true (some q) = Unit
Kept false saved = Unit

abbrev pub past_label : Scan → ℕ → List ℕ → Scan
past_label s len l = record s { pos = s.pos + 1 + len; name = add_label s.name l }

abbrev pub at_target : Scan → ℕ → ℕ → Scan
at_target s high low = record {
  pos = bit_or (bit_and high 0x3F * 256) low;
  name = s.name;
  jumped = true;
  saved = if s.jumped then s.saved else some (s.pos + 2);
  jump_count = s.jump_count + 1;
}

-- The three moves of a round, by what stands at its position.
module _ (buf : List ℕ) (s : Scan) where
  step_root : read buf s.pos ≡ ok 0 → scan_step buf s ≡ ok (end_of_name s)
  unfolding scan_step on_length
  step_root r = ground (arith, read_inside buf s.pos 0 r)

  step_label :
      (len : ℕ) (l : List ℕ)
      → read buf s.pos ≡ ok len
      → len ≢ 0
      → bit_and len 0xC0 ≢ 0xC0
      → read_range buf (s.pos + 1) len ≡ ok l
      → scan_step buf s ≡ ok (next (past_label s len l))
  unfolding scan_step on_length read_label read_range
  step_label len l r n c t = ground (arith, read_inside buf s.pos len r)

  step_pointer :
      (high low : ℕ)
      → read buf s.pos ≡ ok high
      → bit_and high 0xC0 ≡ 0xC0
      → read buf (s.pos + 1) ≡ ok low
      → s.jump_count < 10
      → high ≢ 0
      → scan_step buf s ≡ ok (next (at_target s high low))
  unfolding scan_step on_length follow_pointer
  step_pointer high low r c t h nz =
      ground (arith, read_inside buf s.pos high r, read_inside buf (s.pos + 1) low t)

  scan_next :
      (fuel : ℕ) (t : Scan)
      → scan_step buf s ≡ ok (next t)
      → scan (suc fuel) buf s ≡ scan fuel buf t
  unfolding scan
  scan_next fuel t e = rw e

pointer_nonzero : (high : ℕ) → bit_and high 0xC0 ≡ 0xC0 → high ≢ 0
pointer_nonzero zero c = absurd (omega (arith, c))
pointer_nonzero (suc n) c = λ e. absurd (omega arith)

pub target-Kept :
    (s : Scan) (high low : ℕ) → Kept s.jumped s.saved → Kept true (at_target s high low).saved
target-Kept s high low v = ground arith

pub resume-target :
    (s : Scan) (high low e : ℕ)
    → Kept s.jumped s.saved
    → resume (at_target s high low) e ≡ resume s (s.pos + 2)
unfolding resume
resume-target s high low e v = ground arith

-- With too little fuel the loop says so; it never gives another answer.
scan-NameAt :
    (fuel : ℕ) (buf : List ℕ) (s : Scan) {k e : ℕ} {ls : List (List ℕ)}
    → NameAt buf k s.pos ls e
    → s.jump_count + k ≤ 10
    → Kept s.jumped s.saved
    → (scan fuel buf s ≡ out_of_fuel) ⊎ (scan fuel buf s ≡ ok (add_labels s.name ls, resume s e))
unfolding add_labels end_of_name resume
scan-NameAt zero buf s d h v = inl (unfold scan in refl)
scan-NameAt (suc fuel) buf s (root r x) h v = inr (unfold scan in ground (arith, step_root buf s r))
scan-NameAt (suc fuel) buf s (label {len = len} {l = l} r n c t d) h v =
    rw (scan_next buf s fuel _ (step_label buf s len l r n c t))
      (scan-NameAt fuel buf (past_label s len l) d h v)
scan-NameAt (suc fuel) buf s {ls = ls} (pointer {high = high} {low = low} {target = e'} r c t d x) h
      v =
    rw
      (scan_next buf s fuel _
        (step_pointer buf s high low r c t (omega arith) (pointer_nonzero high c)))
      (subst
        (λ q.
          (scan fuel buf (at_target s high low) ≡ out_of_fuel)
          ⊎ (scan fuel buf (at_target s high low) ≡ ok (add_labels s.name ls, q)))
        (resume-target s high low e' v ∙ ap (resume s) (sym x))
        (scan-NameAt fuel buf (at_target s high low) d (omega arith) (target-Kept s high low v)))

-- Every name of the grammar is read: its labels with dots between them, and the position behind.
pub wire_to_name-NameAt :
    (buf : List ℕ) (p : ℕ) {e : ℕ} {ls : List (List ℕ)}
    → NameAt buf 10 p ls e
    → wire_to_name buf p ≡ ok (add_labels [] ls, e)
unfolding wire_to_name resume scan
wire_to_name-NameAt buf p d = elim (scan-NameAt (rounds buf) buf (start_at p) d (omega arith) tt) [
  | inl e ↦
      absurd (Ensures-ne-fuel (Placed buf p) (wire_to_name buf p) (wire_to_name-Placed buf p) e)
  | inr e ↦ e
]
