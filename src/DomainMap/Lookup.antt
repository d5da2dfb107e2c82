-- ===== src/DomainMap/Lookup.antt =====
-- `set` and `getExact` of domain_map.cpp: a map from canonical names.
use dnss_cpp.Common.{
  ℕ, ◌≡◌, refl, ap, ◌∙◌, Bool, true, false, some, List, [], ◌∷◌, map, arith, if◌then◌else◌, ◌==◌,
}
use mathlib.Core.Path.{ap₂}
use dnss_cpp.Common.Text.{text_eq, text_eq_iff, to_lower}
use dnss_cpp.DomainMap.{DomainMap, dot, end_with_dot, canonicalize, insert, find, set, get_exact}

find-insert :
    (key k v : List ℕ) (m : DomainMap)
    → find key (insert k v m) ≡ (if text_eq key k then some v else find key m)
unfolding find insert
find-insert key k v [] = refl
find-insert key k v ((j, w) ∷ m) =
    ground (arith, text_eq_iff key k, text_eq_iff k j, text_eq_iff key j, find-insert key k v m)

-- After a domain is set, a lookup of any spelling with the same canonical form finds the new value,
-- and a lookup of any other domain finds what it found before.
pub get_exact-set :
    (d e v : List ℕ) (m : DomainMap)
    → get_exact d (set e v m)
      ≡ (if text_eq (canonicalize d) (canonicalize e) then some v else get_exact d m)
unfolding get_exact set
get_exact-set d e v m = find-insert (canonicalize d) (canonicalize e) v m

lower_twice : (c : ℕ) → to_lower (to_lower c) ≡ to_lower c
unfolding to_lower
lower_twice c = ground arith

lower_all_twice : (xs : List ℕ) → map to_lower (map to_lower xs) ≡ map to_lower xs
lower_all_twice [] = refl
lower_all_twice (x ∷ xs) = ap₂ ◌∷◌ (lower_twice x) (lower_all_twice xs)

unfoldable pub ends_in_dot : List ℕ → Bool
ends_in_dot [] = false
ends_in_dot (b ∷ []) = b == dot
ends_in_dot (b ∷ c ∷ cs) = ends_in_dot (c ∷ cs)

ends_in_dot-end_with_dot : (b : ℕ) (bs : List ℕ) → ends_in_dot (end_with_dot b bs) ≡ true
unfolding ends_in_dot end_with_dot
ends_in_dot-end_with_dot b [] = ground arith
ends_in_dot-end_with_dot b (c ∷ []) = ground (arith, ends_in_dot-end_with_dot c [])
ends_in_dot-end_with_dot b (c ∷ d ∷ ds) = ends_in_dot-end_with_dot c (d ∷ ds)

end_with_dot-ends_in_dot :
    (b : ℕ) (bs : List ℕ) → ends_in_dot (b ∷ bs) ≡ true → end_with_dot b bs ≡ b ∷ bs
unfolding ends_in_dot end_with_dot
end_with_dot-ends_in_dot b [] h = ground arith
end_with_dot-ends_in_dot b (c ∷ cs) h = ap (◌∷◌ b) (end_with_dot-ends_in_dot c cs h)

lower-ends_in_dot : (xs : List ℕ) → ends_in_dot xs ≡ true → ends_in_dot (map to_lower xs) ≡ true
unfolding ends_in_dot to_lower
lower-ends_in_dot [] h = h
lower-ends_in_dot (b ∷ []) h = ground arith
lower-ends_in_dot (b ∷ c ∷ cs) h = lower-ends_in_dot (c ∷ cs) h

ends_in_dot-canonicalize : (d : List ℕ) → ends_in_dot (canonicalize d) ≡ true
unfolding canonicalize
ends_in_dot-canonicalize [] = unfold ends_in_dot in refl
ends_in_dot-canonicalize (b ∷ bs) =
    lower-ends_in_dot (end_with_dot b bs) (ends_in_dot-end_with_dot b bs)

canonicalize-ends_in_dot : (d : List ℕ) → ends_in_dot d ≡ true → canonicalize d ≡ map to_lower d
unfolding canonicalize
canonicalize-ends_in_dot [] h = unfold ends_in_dot in cc
canonicalize-ends_in_dot (b ∷ bs) h = ap (map to_lower) (end_with_dot-ends_in_dot b bs h)

canonicalize_lower : (d : List ℕ) → map to_lower (canonicalize d) ≡ canonicalize d
unfolding canonicalize to_lower
canonicalize_lower [] = refl
canonicalize_lower (b ∷ bs) = lower_all_twice (end_with_dot b bs)

-- The canonical form of any text is its own canonical form.
pub canonicalize-canonicalize : (d : List ℕ) → canonicalize (canonicalize d) ≡ canonicalize d
canonicalize-canonicalize d =
    canonicalize-ends_in_dot (canonicalize d) (ends_in_dot-canonicalize d) ∙ canonicalize_lower d
