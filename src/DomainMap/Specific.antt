-- ===== src/DomainMap/Specific.antt =====
-- `isSubDomain` and `getMostSpecific` of domain_map.cpp.
use dnss_cpp.Common.{
  ℕ, zero, suc, ◌-◌, ◌≤◌, ◌<◌, ◌≡◌, ◌≢◌, refl, sym, ap, ◌∙◌, ◌⊎◌, inl, inr, ◌↔◌, true, false, ◌&&◌,
  Option, none, some, List, [], ◌∷◌, ◌++◌, arith, ltb, length, drop, take, get_elem?, length-append,
  All, Bool-cases, Option-cases,
}
use mathlib.Core.Path.{subst}
use mathlib.Core.Option.{some-injective}
use dnss_cpp.Common.Text.{text_eq, text_eq_iff, text_eq_refl}
use dnss_cpp.DomainMap.{
  DomainMap, dot, canonicalize, count_labels, is_sub_domain, best_match, get_most_specific,
}

around :
    (i : ℕ) (xs : List ℕ) {x : ℕ}
    → get_elem? xs i ≡ some x
    → xs ≡ take i xs ++ (x ∷ drop (suc i) xs)
around i [] e = ground arith
around zero (y ∷ xs) e = ground arith
around (suc i) (y ∷ xs) e = ap (◌∷◌ y) (around i xs e)

get_elem?-middle :
    (xs : List ℕ) (x : ℕ) (ys : List ℕ) → get_elem? (xs ++ (x ∷ ys)) (length xs) ≡ some x
get_elem?-middle [] x ys = refl
get_elem?-middle (y ∷ xs) x ys = get_elem?-middle xs x ys

abbrev pub Below : List ℕ → List ℕ → Type 0
Below sub domain = (front : List ℕ) × (sub ≡ front ++ (dot ∷ domain))

one_more : (a b : ℕ) → b < a → suc (a - b - 1) ≡ a - b
one_more a b h = omega arith

module _ (sub domain : List ℕ) where
  -- What the tests have found when they all pass.
  passed :
      (c : ℕ)
      → get_elem? sub (length sub - length domain - 1) ≡ some c
      → text_eq sub domain ≡ false
      → is_sub_domain sub domain ≡ true
      → (length domain < length sub)
        × (text_eq (drop (length sub - length domain) sub) domain ≡ true)
        × (c ≡ dot)
  unfolding is_sub_domain
  passed c e n h = ground arith

  no_byte :
      get_elem? sub (length sub - length domain - 1) ≡ none
      → text_eq sub domain ≡ false
      → is_sub_domain sub domain ≢ true
  unfolding is_sub_domain
  no_byte e n h = ground arith

  sub_domain_sound : is_sub_domain sub domain ≡ true → (sub ≡ domain) ⊎ Below sub domain
  sub_domain_sound h = elim (Bool-cases (text_eq sub domain)) [
    | inl e ↦ inl ((text_eq_iff sub domain).0 e)
    | inr e ↦ elim (Option-cases (get_elem? sub (length sub - length domain - 1))) [
      | inl g ↦ absurd (no_byte g e h)
      | inr (c, g) ↦
          let (lt, t, at_dot) = passed c g e h in
          inr (
            take (length sub - length domain - 1) sub,
            around (length sub - length domain - 1) sub (g ∙ ap some at_dot)
                ∙ ap (λ r. take (length sub - length domain - 1) sub ++ (dot ∷ r))
                    (ap (λ (n : ℕ). drop n sub) (one_more (length sub) (length domain) lt)
                      ∙ (text_eq_iff _ domain).0 t),
          )
    ]
  ]

drop_front :
    (front : List ℕ) (x : ℕ) (ys : List ℕ) → drop (suc (length front)) (front ++ (x ∷ ys)) ≡ ys
drop_front [] x ys = refl
drop_front (y ∷ front) x ys = drop_front front x ys

sub_domain_below : (front domain : List ℕ) → is_sub_domain (front ++ (dot ∷ domain)) domain ≡ true
unfolding is_sub_domain
sub_domain_below front domain =
    let sub = front ++ (dot ∷ domain) in
    let size = length-append front (dot ∷ domain) in
    let n : length sub - length domain ≡ suc (length front) = omega (arith, size) in
    ground (
      arith,
      n,
      size,
      ap (λ (k : ℕ). text_eq (drop k sub) domain) n,
      ap (λ r. text_eq r domain) (drop_front front dot domain),
      text_eq_refl domain,
      ap (get_elem? sub) (before n),
      get_elem?-middle front dot domain,
    )
  where
    before : {a b : ℕ} → a ≡ suc b → a - 1 ≡ b
    before e = omega arith

-- One name is below another exactly if it is that name or ends in a dot and that name.
pub is_sub_domain_iff :
    (sub domain : List ℕ) → (is_sub_domain sub domain ≡ true) ↔ ((sub ≡ domain) ⊎ Below sub domain)
unfolding is_sub_domain
is_sub_domain_iff sub domain = (
  sub_domain_sound sub domain,
  elim [
    | inl e ↦ rw e (rw (text_eq_refl domain))
    | inr (front, e) ↦ rw e (sub_domain_below front domain)
  ],
)

-- An entry of the map.
abbrev pub Has : List ℕ × List ℕ → DomainMap → Type 0
Has e [] = ⊥
Has e (x ∷ m) = (x ≡ e) ⊎ Has e m

-- Every entry above the name has at most so many labels.
abbrev pub AtMost : List ℕ → ℕ → DomainMap → Type 0
AtMost d n m = All (λ e. is_sub_domain d e.0 ≡ true → count_labels e.0 ≤ n) m

abbrev Best : List ℕ → ℕ → Option (List ℕ) → DomainMap → Option (List ℕ) → Type 0
Best d best found m r =
    ((r ≡ found) × AtMost d best m)
    ⊎ ((k : List ℕ) × (v : List ℕ) × Has (k, v) m
        × (is_sub_domain d k ≡ true)
        × (best < count_labels k)
        × (r ≡ some v)
        × AtMost d (count_labels k) m)

AtMost-mono : (d : List ℕ) (n k : ℕ) (m : DomainMap) → n ≤ k → AtMost d n m → AtMost d k m
AtMost-mono d n k [] h v = tt
AtMost-mono d n k (e ∷ m) h (v, vs) = ((λ s. omega (arith, v s)), AtMost-mono d n k m h vs)

module _ (d : List ℕ) (best : ℕ) (found : Option (List ℕ)) (k v : List ℕ) (m : DomainMap) where
  passed_over :
      (r : Option (List ℕ))
      → (is_sub_domain d k ≡ true → count_labels k ≤ best)
      → Best d best found m r
      → Best d best found ((k, v) ∷ m) r
  passed_over r h (inl (e, am)) = inl (e, (h, am))
  passed_over r h (inr (k', v', has, s, lt, e, am)) =
      inr (k', v', inr has, s, lt, e, ((λ t. omega (arith, h t)), am))

  taken :
      (r : Option (List ℕ))
      → is_sub_domain d k ≡ true
      → best < count_labels k
      → Best d (count_labels k) (some v) m r
      → Best d best found ((k, v) ∷ m) r
  taken r s h (inl (e, am)) = inr (k, v, inl refl, s, h, e, ((λ _. omega arith), am))
  taken r s h (inr (k', v', has, s', lt, e, am)) =
      inr (k', v', inr has, s', omega arith, e, ((λ _. omega arith), am))

module _ (d : List ℕ) (best : ℕ) (found : Option (List ℕ)) (k v : List ℕ) (m : DomainMap) where
  miss :
      (is_sub_domain d k && ltb best (count_labels k)) ≡ false
      → best_match d best found ((k, v) ∷ m) ≡ best_match d best found m
  unfolding best_match
  miss h = ground arith

  hit :
      (is_sub_domain d k && ltb best (count_labels k)) ≡ true
      → best_match d best found ((k, v) ∷ m) ≡ best_match d (count_labels k) (some v) m
  unfolding best_match
  hit h = ground arith

best_match-Best :
    (d : List ℕ) (best : ℕ) (found : Option (List ℕ)) (m : DomainMap)
    → Best d best found m (best_match d best found m)
best_match-Best d best found [] = inl (unfold best_match in refl, tt)
best_match-Best d best found ((k, v) ∷ m) =
    elim (Bool-cases (is_sub_domain d k && ltb best (count_labels k))) [
      | inl h ↦ subst (Best d best found ((k, v) ∷ m)) (sym (hit d best found k v m h)) (
          taken d best found k v m _ (ground arith) (ground arith)
            (best_match-Best d (count_labels k) (some v) m))
      | inr h ↦
          subst (Best d best found ((k, v) ∷ m)) (sym (miss d best found k v m h))
            (passed_over d best found k v m _ (λ s. ground arith) (best_match-Best d best found m))
    ]

-- A domain is above a name that is it, or that ends in a dot and it.
abbrev pub IsAbove : List ℕ → List ℕ → Type 0
IsAbove d k = (d ≡ k) ⊎ Below d k

-- The entry of the most labels above the domain, or none.
abbrev pub MostSpecific : List ℕ → DomainMap → Option (List ℕ) → Type 0
MostSpecific d m none = All (λ e. IsAbove d e.0 → count_labels e.0 ≤ 0) m
MostSpecific d m (some v) =
    (k : List ℕ) × Has (k, v) m
    × IsAbove d k
    × (0 < count_labels k)
    × All (λ e. IsAbove d e.0 → count_labels e.0 ≤ count_labels k) m

AtMost-IsAbove :
    (d : List ℕ) (n : ℕ) (m : DomainMap)
    → AtMost d n m
    → All (λ e. IsAbove d e.0 → count_labels e.0 ≤ n) m
AtMost-IsAbove d n [] h = tt
AtMost-IsAbove d n (e ∷ m) (h, hs) =
    ((λ a. h ((is_sub_domain_iff d e.0).1 a)), AtMost-IsAbove d n m hs)

-- Say that a domain is above a name if the name is it, or ends in a dot and it; labels are counted by
-- their dots. `getMostSpecific` returns the value of an entry whose domain is above the name it was
-- given, in its canonical form, and no entry whose domain is above that has more labels; it finds
-- nothing only if no entry's domain is above that, or only some without a dot.
pub get_most_specific-MostSpecific :
    (domain : List ℕ) (m : DomainMap)
    → MostSpecific (canonicalize domain) m (get_most_specific domain m)
unfolding get_most_specific
get_most_specific-MostSpecific domain m =
    conclude (best_match (canonicalize domain) 0 none m)
      (best_match-Best (canonicalize domain) 0 none m)
  where
    conclude :
        (r : Option (List ℕ))
        → Best (canonicalize domain) 0 none m r
        → MostSpecific (canonicalize domain) m r
    conclude none (inl (e, am)) = AtMost-IsAbove (canonicalize domain) 0 m am
    conclude none (inr (k, v, has, s, lt, e, am)) = absurd (ground arith)
    conclude (some v) (inl (e, am)) = absurd (ground arith)
    conclude (some v) (inr (k, w, has, s, lt, e, am)) = (
      k,
      subst (λ v. Has (k, v) m) (sym (some-injective v w e)) has,
      (is_sub_domain_iff (canonicalize domain) k).0 s,
      lt,
      AtMost-IsAbove (canonicalize domain) (count_labels k) m am,
    )
