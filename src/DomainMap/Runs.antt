-- ===== src/DomainMap/Runs.antt =====
-- Runs of the overrides by domain, and the theorems at them.
use dnss_cpp.Common.{ℕ, ◌≡◌, refl, false, some, List, [], ◌∷◌}
use dnss_cpp.Common.Text.{text_eq, to_lower}
use dnss_cpp.DomainMap.{
  DomainMap, best_match, end_with_dot, count_labels, canonicalize, is_sub_domain, get_most_specific,
}
use dnss_cpp.DomainMap.Specific.{MostSpecific, get_most_specific-MostSpecific}

-- `b.a.`, `a.`, `xa.` and `A`.
abbrev below : List ℕ
below = b'b' ∷ b'.' ∷ b'a' ∷ b'.' ∷ []

abbrev above : List ℕ
above = b'a' ∷ b'.' ∷ []

abbrev other : List ℕ
other = b'x' ∷ b'a' ∷ b'.' ∷ []

abbrev upper : List ℕ
upper = b'A' ∷ []

abbrev overrides : DomainMap
overrides = (above, 1 ∷ []) ∷ (below, 2 ∷ []) ∷ []

not_below : is_sub_domain other above ≡ false
unfolding is_sub_domain text_eq
not_below = refl

most_specific : get_most_specific below overrides ≡ some (2 ∷ [])
unfolding get_most_specific best_match is_sub_domain text_eq canonicalize end_with_dot to_lower
    count_labels
most_specific = refl

get_most_specific-MostSpecific_example :
    MostSpecific (canonicalize below) overrides (get_most_specific below overrides)
get_most_specific-MostSpecific_example = get_most_specific-MostSpecific below overrides

-- The domain `.` is above no name that has a label.
root_not_above : is_sub_domain above (b'.' ∷ []) ≡ false
unfolding is_sub_domain text_eq
root_not_above = refl
