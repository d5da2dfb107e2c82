-- ===== src/Protocol/Name/Emit.antt =====
-- `nameToWire` of dns_protocol.hpp on any text: it ends, and what it writes is bounded.
use dnss_cpp.Common.{
  ℕ, zero, suc, ◌+◌, ◌≤◌, ◌<◌, ◌≡◌, Option, none, some, List, [], ◌∷◌, length, arith, length-append,
  ok, Ensures, Ensures->>=, Ensures-mono, inl, inr, Bool-cases,
}
use dnss_cpp.Protocol.Name.{split_dot, emit_label, emit_labels, is_root, name_to_wire}

-- The label and the rest are parts of the text, and the dot is in neither.
abbrev SplitSizes : ℕ → List ℕ × Option (List ℕ) → Type 0
SplitSizes n (label, none) = length label ≡ n
SplitSizes n (label, some rest) = length label + length rest + 1 ≡ n

split_dot-sizes : (name : List ℕ) → SplitSizes (length name) (split_dot name)
unfolding split_dot
split_dot-sizes [] = omega arith
split_dot-sizes (b ∷ bs) = ground (arith, split_dot-sizes bs)

-- Room for the label and its length byte, if there is a label.
abbrev Emitted : ℕ → List ℕ → Type 0
Emitted n out = length out ≤ n

emit_label-size :
    (out label : List ℕ) → Ensures (Emitted (length out + length label + 1)) (emit_label out label)
unfolding emit_label
emit_label-size out label = ground (arith, length-append out (length label ∷ label))

-- What follows the first label, once the loop is known to be right for shorter texts.
after_label :
    (fuel n : ℕ) (out label : List ℕ) (r : Option (List ℕ)) (out' : List ℕ)
    → SplitSizes n (label, r)
    → ((rest : List ℕ) (o : List ℕ)
        → length rest < fuel
        → Ensures (Emitted (length o + length rest + 1)) (emit_labels fuel rest o))
    → n < suc fuel
    → Emitted (length out + length label + 1) out'
    → Ensures
        (Emitted (length out + n + 1))
        (elim r [ none ↦ ok out' | some rest ↦ emit_labels fuel rest out' ])
after_label fuel n out label none out' sizes rec h small = omega arith
after_label fuel n out label (some rest) out' sizes rec h small =
    Ensures-mono (Emitted (length out' + length rest + 1)) (Emitted (length out + n + 1))
      (emit_labels fuel rest out') (λ a le. omega arith) (rec rest out' (omega arith))

emit_labels-size :
    (fuel : ℕ) (name out : List ℕ)
    → length name < fuel
    → Ensures (Emitted (length out + length name + 1)) (emit_labels fuel name out)
unfolding emit_labels
emit_labels-size zero name out h = absurd (omega arith)
emit_labels-size (suc fuel) name out h =
    Ensures->>= (Emitted (length out + length label + 1)) (Emitted (length out + length name + 1))
      (emit_label out label) _ (emit_label-size out label)
      λ out'.
        after_label fuel (length name) out label (split_dot name).1 out' (split_dot-sizes name)
          (emit_labels-size fuel) h
  where
    label : List ℕ
    label = (split_dot name).0

-- Writing any text as a name throws or returns, within its fuel, and what it returns has at most two
-- bytes more than the text.
pub name_to_wire-size :
    (name : List ℕ) → Ensures (λ wire. length wire ≤ length name + 2) (name_to_wire name)
unfolding name_to_wire
name_to_wire-size name = elim (Bool-cases (is_root name)) [
  | inl r ↦ rw r (omega arith)
  | inr r ↦ rw r (
      Ensures->>= (Emitted (0 + length name + 1)) _ (emit_labels (suc (length name)) name []) _
        (emit_labels-size (suc (length name)) name [] (omega arith))
        (λ out le. omega (arith, length-append out (0 ∷ []))))
]
