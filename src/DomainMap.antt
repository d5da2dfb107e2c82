-- ===== src/DomainMap.antt =====
-- domain_map.hpp and domain_map.cpp: overrides by domain. `std::map` is a list in the order of its
-- keys, the order in which it is iterated; a string is the list of its bytes.
pub mod Lookup
pub mod Specific
pub mod Runs
use dnss_cpp.Common.{
  ℕ, zero, suc, ◌+◌, ◌-◌, Bool, true, false, not, ◌||◌, Option, none, some, List, [], ◌∷◌, ◌++◌,
  map, ◌==◌, ltb, leb, if◌then◌else◌, length, drop, get_elem?,
}
use dnss_cpp.Common.Text.{text_eq, text_less, split_at, to_lower, trim}

abbrev pub DomainMap : Type 0
DomainMap = List (List ℕ × List ℕ)

abbrev pub dot : ℕ
dot = b'.'

-- `if (d.back() != '.') d.push_back('.')`, for a text that is not empty.
unfoldable pub end_with_dot : ℕ → List ℕ → List ℕ
end_with_dot b [] = if b == dot then b ∷ [] else b ∷ dot ∷ []
end_with_dot b (c ∷ cs) = b ∷ end_with_dot c cs

unfoldable pub canonicalize : List ℕ → List ℕ
canonicalize [] = dot ∷ []
canonicalize (b ∷ bs) = map to_lower (end_with_dot b bs)

-- `map_[key] = value`
unfoldable pub insert : List ℕ → List ℕ → DomainMap → DomainMap
insert key value [] = (key, value) ∷ []
insert key value ((k, v) ∷ m) =
    let rest = insert key value m in
    if text_eq key k
    then (k, value) ∷ m
    else if text_less key k
    then (key, value) ∷ (k, v) ∷ m
    else (k, v) ∷ rest

unfoldable pub find : List ℕ → DomainMap → Option (List ℕ)
find key [] = none
find key ((k, v) ∷ m) = if text_eq key k then some v else find key m

unfoldable pub set : List ℕ → List ℕ → DomainMap → DomainMap
set domain value m = insert (canonicalize domain) value m

unfoldable pub get_exact : List ℕ → DomainMap → Option (List ℕ)
get_exact domain m = find (canonicalize domain) m

unfoldable pub count_labels : List ℕ → ℕ
count_labels [] = 0
count_labels (c ∷ cs) = if c == dot then suc (count_labels cs) else count_labels cs

-- `sub.compare(n, domain.size(), domain) != 0` and `sub[n - 1] == '.'`, with `n` the difference
-- of the sizes.
unfoldable pub is_sub_domain : List ℕ → List ℕ → Bool
is_sub_domain sub domain =
    let n = length sub - length domain in
    if text_eq sub domain
    then true
    else if leb (length sub) (length domain)
    then false
    else if not (text_eq (drop n sub) domain)
    then false
    else elim (get_elem? sub (n - 1)) [ none ↦ false | some c ↦ c == dot ]

-- The loop of `getMostSpecific`; `best` is `bestCount`, and `bestVal` if `found`.
unfoldable pub best_match : List ℕ → ℕ → Option (List ℕ) → DomainMap → Option (List ℕ)
best_match d best found [] = found
best_match d best found ((k, v) ∷ m) =
    let c = count_labels k in
    let hit = best_match d c (some v) m in
    let miss = best_match d best found m in
    if not (is_sub_domain d k) then miss else if ltb best c then hit else miss

unfoldable pub get_most_specific : List ℕ → DomainMap → Option (List ℕ)
get_most_specific domain m = best_match (canonicalize domain) 0 none m

-- An entry with no colon, or with nothing before it, is skipped.
unfoldable pub add_entry : List ℕ × Option (List ℕ) → DomainMap → DomainMap
add_entry (domain, none) m = m
add_entry ([], some addr) m = m
add_entry (c ∷ cs, some addr) m = set (trim (c ∷ cs)) (trim addr) m

unfoldable pub add_trimmed : List ℕ → DomainMap → DomainMap
add_trimmed [] m = m
add_trimmed (b ∷ bs) m = add_entry (split_at b':' (b ∷ bs)) m

-- `getline(ss, pair, ',')`, as often as it succeeds: nothing is read behind a last comma.
unfoldable pub to_first : ℕ → List (List ℕ) → List (List ℕ)
to_first b [] = (b ∷ []) ∷ []
to_first b (p ∷ ps) = (b ∷ p) ∷ ps

unfoldable pub comma_parts : List ℕ → List (List ℕ)
comma_parts [] = []
comma_parts (b ∷ bs) =
    let parts = comma_parts bs in if b == b',' then [] ∷ parts else to_first b parts

unfoldable pub add_pairs : List (List ℕ) → DomainMap → DomainMap
add_pairs [] m = m
add_pairs (pair ∷ pairs) m = add_pairs pairs (add_trimmed (trim pair) m)

unfoldable pub from_string : List ℕ → DomainMap
from_string s = add_pairs (comma_parts s) []
