-- ===== src/Protocol/Name/Labels.antt =====
-- Names as lists of labels: the text with dots, and the bytes on the wire.
use dnss_cpp.Common.{
  ℕ, ◌≤◌, ◌<◌, ◌≡◌, refl, ◌≢◌, List, [], ◌∷◌, ◌++◌, length, arith, All, length-append,
}
use dnss_cpp.Protocol.Name.{dot, add_label}
use mathlib.Core.List.{append_assoc, append-nil}

-- 1 to 63 bytes, none of them a dot.
abbrev pub IsLabel : List ℕ → Type 0
IsLabel l = (1 ≤ length l) × (length l ≤ 63) × All (λ b. b ≢ dot) l

-- A dot before each label.
unfoldable pub dotted : List (List ℕ) → List ℕ
dotted [] = []
dotted (l ∷ ls) = dot ∷ (l ++ dotted ls)

unfoldable pub join : List (List ℕ) → List ℕ
unfolding dotted
join [] = []
join (l ∷ ls) = l ++ dotted ls

-- Each label behind its length.
unfoldable pub counted : List (List ℕ) → List ℕ
counted [] = []
counted (l ∷ ls) = length l ∷ (l ++ counted ls)

unfoldable pub wire_labels : List (List ℕ) → List ℕ
wire_labels [] = 0 ∷ []
wire_labels (l ∷ ls) = length l ∷ (l ++ wire_labels ls)

pub counted-end : (ls : List (List ℕ)) → counted ls ++ (0 ∷ []) ≡ wire_labels ls
unfolding counted wire_labels
counted-end [] = refl
counted-end (l ∷ ls) = ground (arith, append_assoc l (counted ls) (0 ∷ []), counted-end ls)

pub length-wire_labels : (ls : List (List ℕ)) → length ls < length (wire_labels ls)
unfolding wire_labels
length-wire_labels [] = omega arith
length-wire_labels (l ∷ ls) = omega (arith, length-append l (wire_labels ls), length-wire_labels ls)

-- `add_label`, label after label.
unfoldable pub add_labels : List ℕ → List (List ℕ) → List ℕ
add_labels name [] = name
add_labels name (l ∷ ls) = add_labels (add_label name l) ls

add_labels-dotted :
    (b : ℕ) (bs : List ℕ) (ls : List (List ℕ)) → add_labels (b ∷ bs) ls ≡ (b ∷ bs) ++ dotted ls
unfolding add_labels add_label dotted
add_labels-dotted b bs [] = ground (arith, append-nil (b ∷ bs))
add_labels-dotted b bs (l ∷ ls) =
    ground (arith, add_labels-dotted b (bs ++ (dot ∷ l)) ls, append_assoc bs (dot ∷ l) (dotted ls))

pub add_labels-join : (ls : List (List ℕ)) → All IsLabel ls → add_labels [] ls ≡ join ls
unfolding add_labels add_label join
add_labels-join [] h = refl
add_labels-join ([] ∷ ls) h = absurd (omega arith)
add_labels-join ((b ∷ bs) ∷ ls) h = add_labels-dotted b bs ls
