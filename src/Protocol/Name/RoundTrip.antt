-- ===== src/Protocol/Name/RoundTrip.antt =====
-- `nameToWire` and `wireToName` of dns_protocol.hpp against names as lists of labels.
use dnss_cpp.Common.{
  ℕ, zero, suc, ◌+◌, ◌≤◌, ◌<◌, ◌≡◌, refl, ap, ◌∙◌, ◌≢◌, true, false, none, some, List, [], ◌∷◌,
  ◌++◌, length, arith, All, length-append, bit_and, ◌==◌, not, ok, drop,
}
use dnss_cpp.Common.Bytes.{holds_below, holds_below_at}
use dnss_cpp.Protocol.Buffer.{read_at, read_range_at, drop_past, length_past}
use dnss_cpp.Protocol.Name.{
  dot, split_dot, emit_label, emit_labels, is_root, name_to_wire, wire_to_name,
}
use dnss_cpp.Protocol.Name.Labels.{
  IsLabel, dotted, join, counted, wire_labels, counted-end, add_labels-join,
}
use dnss_cpp.Protocol.Name.Grammar.{NameAt, root, label, wire_to_name-NameAt}
use mathlib.Core.Path.{subst}
use mathlib.Core.List.{append-nil, append_assoc}

split_last : (l : List ℕ) → All (λ b. b ≢ dot) l → split_dot l ≡ (l, none)
unfolding split_dot
split_last [] h = refl
split_last (b ∷ bs) (hb, hs) = ground (arith, split_last bs hs)

split_first :
    (l rest : List ℕ) → All (λ b. b ≢ dot) l → split_dot (l ++ (dot ∷ rest)) ≡ (l, some rest)
unfolding split_dot
split_first [] rest h = refl
split_first (b ∷ bs) rest (hb, hs) = ground (arith, split_first bs rest hs)

emit_one : (out l : List ℕ) → IsLabel l → emit_label out l ≡ ok (out ++ (length l ∷ l))
unfolding emit_label
emit_one out l h = ground arith

emit_labels-counted :
    (fuel : ℕ) (l : List ℕ) (ls : List (List ℕ)) (out : List ℕ)
    → length (join (l ∷ ls)) < fuel
    → All IsLabel (l ∷ ls)
    → emit_labels fuel (join (l ∷ ls)) out ≡ ok (out ++ counted (l ∷ ls))
unfolding emit_labels join dotted counted
emit_labels-counted zero l ls out h v = absurd (omega arith)
emit_labels-counted (suc fuel) l [] out h ((a, b, c), v) =
    ground (arith, append-nil l, split_last l c, emit_one out l (a, b, c))
emit_labels-counted (suc fuel) l (m ∷ ls) out h (v, vs) = ground (
  arith,
  split_first l (join (m ∷ ls)) v.2,
  emit_one out l v,
  length-append l (dot ∷ join (m ∷ ls)),
  emit_labels-counted fuel m ls (out ++ (length l ∷ l))
      (omega (arith, h, length-append l (dot ∷ join (m ∷ ls)))) vs,
  append_assoc out (length l ∷ l) (counted (m ∷ ls)),
)

join-is_root :
    (l : List ℕ) (ls : List (List ℕ)) → All IsLabel (l ∷ ls) → is_root (join (l ∷ ls)) ≡ false
unfolding is_root join dotted
join-is_root [] ls v = absurd (omega arith)
join-is_root (b ∷ []) [] v = ground (arith, v.0.2.0)
join-is_root (b ∷ []) (m ∷ ls) v = refl
join-is_root (b ∷ c ∷ bs) ls v = refl

-- For labels of 1 to 63 bytes without dots, `nameToWire` writes their text, joined by dots, as each
-- label behind its length and a zero at the end.
pub name_to_wire-join :
    (ls : List (List ℕ)) → All IsLabel ls → name_to_wire (join ls) ≡ ok (wire_labels ls)
unfolding name_to_wire join wire_labels
name_to_wire-join [] v = unfold is_root in refl
name_to_wire-join (l ∷ ls) v = ground (
  arith,
  join-is_root l ls v,
  emit_labels-counted (suc (length (join (l ∷ ls)))) l ls [] (omega arith) v,
  counted-end (l ∷ ls),
)

pub plain_length : (n : ℕ) → n ≤ 63 → (bit_and n 0xC0 == 0xC0) ≡ false
unfolding holds_below
plain_length n h = ground (arith, holds_below_at 64 (λ n. not (bit_and n 0xC0 == 0xC0)) n table)
  where
    table : holds_below 64 (λ n. not (bit_and n 0xC0 == 0xC0)) ≡ true
    table = refl

pub drop-past_label :
    (buf : List ℕ) (p : ℕ) (l rest : List ℕ)
    → drop p buf ≡ length l ∷ (l ++ rest)
    → drop (p + 1 + length l) buf ≡ rest
drop-past_label buf p l rest e =
    drop_past (p + 1) buf l rest (drop_past p buf (length l ∷ []) (l ++ rest) e)

-- The labels of a name, each behind its length, are a name of the grammar with no pointer.
wire_labels-NameAt :
    (buf : List ℕ) (p : ℕ) (ls : List (List ℕ)) (rest : List ℕ)
    → All IsLabel ls
    → p ≤ length buf
    → drop p buf ≡ wire_labels ls ++ rest
    → NameAt buf 10 p ls (p + length (wire_labels ls))
unfolding wire_labels
wire_labels-NameAt buf p [] rest v h e = root (read_at buf p 0 e) refl
wire_labels-NameAt buf p (l ∷ ls) rest (v, vs) h e =
    subst (λ q. NameAt buf 10 p (l ∷ ls) q) (omega (arith, length-append l (wire_labels ls)))
      (label (read_at buf p (length l) whole) (omega arith)
        (ground (arith, plain_length (length l)))
        (read_range_at buf (p + 1) l (wire_labels ls ++ rest) (omega (arith, room))
          (drop_past p buf (length l ∷ []) _ whole))
        (wire_labels-NameAt buf (p + 1 + length l) ls rest vs (omega (arith, room))
          (drop-past_label buf p l _ whole)))
  where
    whole : drop p buf ≡ length l ∷ (l ++ (wire_labels ls ++ rest))
    whole = e ∙ ap (◌∷◌ (length l)) (append_assoc l (wire_labels ls) rest)

    room : p + 1 + length l ≤ length buf
    room = omega (arith, length_past p buf (length l ∷ l) (wire_labels ls ++ rest) whole, h)

-- Where the bytes of labels of 1 to 63 bytes without dots stand in a buffer, as `nameToWire` writes
-- them, `wireToName` reads the text of the labels joined by dots, and leaves the pointer behind them.
pub wire_to_name-wire_labels :
    (buf : List ℕ) (p : ℕ) (ls : List (List ℕ)) (rest : List ℕ)
    → All IsLabel ls
    → p ≤ length buf
    → drop p buf ≡ wire_labels ls ++ rest
    → wire_to_name buf p ≡ ok (join ls, p + length (wire_labels ls))
wire_to_name-wire_labels buf p ls rest v h e =
    wire_to_name-NameAt buf p (wire_labels-NameAt buf p ls rest v h e)
    ∙ ap (λ n. ok (n, p + length (wire_labels ls))) (add_labels-join ls v)
