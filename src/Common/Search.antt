-- ===== src/Common/Search.antt =====
-- `std::string::find` of a text and of a character, as what stands before the first occurrence and what
-- follows it.
use Prim.Native.Nat.{ℕ, ◌+◌, ◌≤◌}
use mathlib.Core.Path.{◌≡◌, refl}
use mathlib.Core.Bool.{Bool, true, false}
use mathlib.Core.Option.{Option, none, some}
use mathlib.Core.List.{List, [], ◌∷◌, ◌++◌}
use native.Mathlib.Omega.{arith}
use dnss_cpp.Common.Tests.{◌==◌, if◌then◌else◌, Option-cases}
use dnss_cpp.Common.Lists.{length, All}
use dnss_cpp.Common.Text.{split_at}
use mathlib.Core.Logic.{inl, inr}

-- What follows the pattern, if the text starts with it.
unfoldable pub strip_prefix : List ℕ → List ℕ → Option (List ℕ)
strip_prefix [] text = some text
strip_prefix (p ∷ ps) [] = none
strip_prefix (p ∷ ps) (b ∷ bs) = let rest = strip_prefix ps bs in if p == b then rest else none

unfoldable pub split_text : List ℕ → List ℕ → List ℕ × Option (List ℕ)
split_text pattern [] = ([], strip_prefix pattern [])
split_text pattern (b ∷ bs) =
    let later = split_text pattern bs in
    elim (strip_prefix pattern (b ∷ bs)) [
      | some rest ↦ ([], some rest)
      | none ↦ (b ∷ later.0, later.1)
    ]

unfoldable pub contains : List ℕ → List ℕ → Bool
contains pattern text = elim (split_text pattern text).1 [ none ↦ false | some rest ↦ true ]

-- A character does not occur.
abbrev pub IsFree : ℕ → List ℕ → Type 0
IsFree c text = All (λ b. (b == c) ≡ false) text

pub split_at-IsFree :
    (c : ℕ) (before after : List ℕ)
    → IsFree c before
    → split_at c (before ++ c ∷ after) ≡ (before, some after)
unfolding split_at
split_at-IsFree c [] after h = ground arith
split_at-IsFree c (b ∷ bs) after (h, hs) = ground (arith, h, split_at-IsFree c bs after hs)

pub split_at-none : (c : ℕ) (text : List ℕ) → IsFree c text → split_at c text ≡ (text, none)
unfolding split_at
split_at-none c [] h = refl
split_at-none c (b ∷ bs) (h, hs) = ground (arith, h, split_at-none c bs hs)

pub strip_prefix-append :
    (pattern rest : List ℕ) → strip_prefix pattern (pattern ++ rest) ≡ some rest
unfolding strip_prefix
strip_prefix-append [] rest = refl
strip_prefix-append (p ∷ ps) rest = ground (arith, strip_prefix-append ps rest)

strip_prefix_other :
    (p : ℕ) (ps : List ℕ) (b : ℕ) (bs : List ℕ)
    → (b == p) ≡ false
    → strip_prefix (p ∷ ps) (b ∷ bs) ≡ none
unfolding strip_prefix
strip_prefix_other p ps b bs h = ground (arith, h)

-- A pattern is found behind a text in which its first character does not occur.
pub split_text-IsFree :
    (p : ℕ) (ps before after : List ℕ)
    → IsFree p before
    → split_text (p ∷ ps) (before ++ (p ∷ (ps ++ after))) ≡ (before, some after)
unfolding split_text
split_text-IsFree p ps [] after h = ground (arith, strip_prefix-append (p ∷ ps) after)
split_text-IsFree p ps (b ∷ bs) after (h, hs) = ground (
  arith,
  strip_prefix_other p ps b (bs ++ (p ∷ (ps ++ after))) h,
  split_text-IsFree p ps bs after hs,
)

strip_prefix-longer :
    (pattern xs ys rest : List ℕ)
    → strip_prefix pattern xs ≡ some rest
    → strip_prefix pattern (xs ++ ys) ≡ some (rest ++ ys)
unfolding strip_prefix
strip_prefix-longer [] xs ys rest h = ground (arith, h)
strip_prefix-longer (p ∷ ps) [] ys rest h = cc
strip_prefix-longer (p ∷ ps) (x ∷ xs) ys rest h =
    ground (arith, h, strip_prefix-longer ps xs ys rest)

-- How long what is found is.
strip_prefix_size :
    (pattern xs rest : List ℕ)
    → strip_prefix pattern xs ≡ some rest
    → length xs ≡ length pattern + length rest
unfolding strip_prefix
strip_prefix_size [] xs rest h = ground (arith, h)
strip_prefix_size (p ∷ ps) [] rest h = cc
strip_prefix_size (p ∷ ps) (x ∷ xs) rest h = ground (arith, h, strip_prefix_size ps xs rest)

pub split_text_size :
    (pattern xs before rest : List ℕ)
    → split_text pattern xs ≡ (before, some rest)
    → length xs ≡ length before + length pattern + length rest
unfolding split_text
split_text_size pattern [] before rest h = ground (arith, h, strip_prefix_size pattern [] rest)
split_text_size pattern (x ∷ xs) before rest h =
    elim (Option-cases (strip_prefix pattern (x ∷ xs))) [
      | inr (r, e) ↦ ground (arith, e, h, strip_prefix_size pattern (x ∷ xs) r e)
      | inl e ↦ ground (arith, e, h, split_text_size pattern xs (split_text pattern xs).0 rest)
    ]

strip_prefix-none :
    (pattern xs ys : List ℕ)
    → length pattern ≤ length xs
    → strip_prefix pattern xs ≡ none
    → strip_prefix pattern (xs ++ ys) ≡ none
unfolding strip_prefix
strip_prefix-none [] xs ys n h = cc
strip_prefix-none (p ∷ ps) [] ys n h = ground arith
strip_prefix-none (p ∷ ps) (x ∷ xs) ys n h = ground (arith, h, strip_prefix-none ps xs ys)

strip_prefix_empty : (p : ℕ) (ps : List ℕ) → strip_prefix (p ∷ ps) [] ≡ none
unfolding strip_prefix
strip_prefix_empty p ps = refl

-- Where a pattern was found, it is found when the text goes on.
pub split_text-longer :
    (p : ℕ) (ps xs ys before rest : List ℕ)
    → split_text (p ∷ ps) xs ≡ (before, some rest)
    → split_text (p ∷ ps) (xs ++ ys) ≡ (before, some (rest ++ ys))
unfolding split_text
split_text-longer p ps [] ys before rest h = ground (arith, h, strip_prefix_empty p ps)
split_text-longer p ps (x ∷ xs) ys before rest h =
    elim (Option-cases (strip_prefix (p ∷ ps) (x ∷ xs))) [
      | inr (r, e) ↦ ground (arith, e, h, strip_prefix-longer (p ∷ ps) (x ∷ xs) ys r e)
      | inl e ↦ ground (
        arith,
        e,
        h,
        split_text_size (p ∷ ps) xs (split_text (p ∷ ps) xs).0 rest,
        strip_prefix-none (p ∷ ps) (x ∷ xs) ys,
        split_text-longer p ps xs ys (split_text (p ∷ ps) xs).0 rest,
      )
    ]
