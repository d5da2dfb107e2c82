-- ===== src/Http/Url/NoProxy.antt =====
-- Which hosts `matchesNoProxy` exempts from the proxy.
use dnss_cpp.Common.{ℕ, ◌≡◌, refl, ◌↔◌, ◌⊎◌, true, false, List, [], ◌∷◌, ◌++◌, arith, All}
use dnss_cpp.Common.Text.{text_eq_iff}
use dnss_cpp.Common.Search.{IsFree}
use dnss_cpp.Cache.Policy.{is_empty}
use dnss_cpp.Http.Url.{pieces, trim_blanks, matches_entry, matches_any, matches_no_proxy}

-- The variable `no_proxy` for these entries.
abbrev pub no_proxy_text : List (List ℕ) → List ℕ
no_proxy_text [] = []
no_proxy_text (entry ∷ []) = entry
no_proxy_text (entry ∷ next ∷ more) = entry ++ (b',' ∷ no_proxy_text (next ∷ more))

-- An entry is not empty, has no comma, and no blank at either end.
abbrev pub IsEntry : List ℕ → Type 0
IsEntry entry = (is_empty entry ≡ false) × IsFree b',' entry × (trim_blanks entry ≡ entry)

abbrev pub Exempts : List ℕ → List (List ℕ) → Type 0
Exempts host [] = ⊥
Exempts host (entry ∷ entries) = (entry ≡ host) ⊎ (entry ≡ b'*' ∷ []) ⊎ Exempts host entries

pieces-IsFree : (c : ℕ) (text : List ℕ) → IsFree c text → pieces c text ≡ text ∷ []
unfolding pieces
pieces-IsFree c [] h = refl
pieces-IsFree c (b ∷ bs) (h, hs) = ground (arith, h, pieces-IsFree c bs hs)

pieces-append :
    (c : ℕ) (text rest : List ℕ)
    → IsFree c text
    → pieces c (text ++ (c ∷ rest)) ≡ text ∷ pieces c rest
unfolding pieces
pieces-append c [] rest h = ground arith
pieces-append c (b ∷ bs) rest (h, hs) = ground (arith, h, pieces-append c bs rest hs)

pieces-no_proxy_text :
    (entry : List ℕ) (entries : List (List ℕ))
    → All IsEntry (entry ∷ entries)
    → pieces b',' (no_proxy_text (entry ∷ entries)) ≡ entry ∷ entries
pieces-no_proxy_text entry [] ((e, f, t), hs) = pieces-IsFree b',' entry f
pieces-no_proxy_text entry (next ∷ more) ((e, f, t), hs) =
    rw (pieces-append b',' entry (no_proxy_text (next ∷ more)) f)
      (rw (pieces-no_proxy_text next more hs) refl)

no_proxy_text_nonempty :
    (entry : List ℕ) (entries : List (List ℕ))
    → is_empty entry ≡ false
    → is_empty (no_proxy_text (entry ∷ entries)) ≡ false
unfolding is_empty
no_proxy_text_nonempty [] entries h = cc
no_proxy_text_nonempty (b ∷ bs) [] h = refl
no_proxy_text_nonempty (b ∷ bs) (next ∷ more) h = refl

matches_any_iff :
    (host : List ℕ) (entries : List (List ℕ))
    → All IsEntry entries
    → (matches_any host entries ≡ true) ↔ Exempts host entries
unfolding matches_any matches_entry
matches_any_iff host [] h = ((λ e. absurd (cc)), (λ e. absurd e))
matches_any_iff host (entry ∷ entries) ((n, f, t), hs) = rw t (
    ground (
      arith,
      n,
      text_eq_iff entry host,
      text_eq_iff entry (b'*' ∷ []),
      matches_any_iff host entries hs,
    ))

-- With a `no_proxy` of entries with commas between them, a host is exempt exactly if it is one of the
-- entries, letter by letter, or one of them is `*`. The entries are not empty, and have no comma and
-- no blank at either end.
pub matches_no_proxy_iff :
    (host entry : List ℕ) (entries : List (List ℕ))
    → All IsEntry (entry ∷ entries)
    → (matches_no_proxy host (no_proxy_text (entry ∷ entries)) ≡ true)
      ↔ Exempts host (entry ∷ entries)
unfolding matches_no_proxy
matches_no_proxy_iff host entry entries h =
    rw (no_proxy_text_nonempty entry entries h.0.0, pieces-no_proxy_text entry entries h)
      (matches_any_iff host (entry ∷ entries) h)
