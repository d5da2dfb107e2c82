-- ===== src/Cache/Store/Laws.antt =====
-- `cache_` as a map: what is found after each write, and how many entries there are.
use dnss_cpp.Common.{
  ℕ, suc, ◌≤◌, ◌≡◌, refl, sym, ◌∙◌, ◌↔◌, inl, inr, true, false, Option, none, some, [], ◌∷◌, arith,
  if◌then◌else◌, length, All, Bool-cases,
}
use mathlib.Core.Path.{subst}
use dnss_cpp.Common.Text.{text_eq_iff, text_eq_refl}
use dnss_cpp.Cache.{CacheKey, CacheEntry, key_eq}
use dnss_cpp.Cache.Policy.{is_expired}
use dnss_cpp.Cache.Store.{Entries, find, put, erase, remove_expired}

pub key_eq_iff : (k l : CacheKey) → (key_eq k l ≡ true) ↔ (k ≡ l)
unfolding key_eq
key_eq_iff k l = (
  (λ h. same ((text_eq_iff k.name l.name).0 (ground arith)) (ground arith) (ground arith)),
  (λ e. rw e (rw (text_eq_refl l.name) (ground arith))),
)
  where
    same : k.name ≡ l.name → k.type ≡ l.type → k.qclass ≡ l.qclass → k ≡ l
    same a b c = λ i. record { name = a i; type = b i; qclass = c i }

-- After an entry is stored in the map, its key finds it, and every other key finds what it found
-- before.
pub find-put :
    (j key : CacheKey) (entry : CacheEntry) (es : Entries)
    → find j (put key entry es) ≡ (if key_eq j key then some entry else find j es)
unfolding find put
find-put j key entry [] = refl
find-put j key entry ((k, e) ∷ es) =
    ground (arith, key_eq_iff j key, key_eq_iff key k, key_eq_iff j k, find-put j key entry es)

pub length-put :
    (key : CacheKey) (entry : CacheEntry) (es : Entries)
    → length (put key entry es) ≤ suc (length es)
unfolding put
length-put key entry [] = omega arith
length-put key entry ((k, e) ∷ es) = ground (arith, length-put key entry es)

-- A key that is there is written over.
pub length-put_present :
    (key : CacheKey) (entry e : CacheEntry) (es : Entries)
    → find key es ≡ some e
    → length (put key entry es) ≡ length es
unfolding put find
length-put_present key entry e [] h = absurd (ground arith)
length-put_present key entry e ((k, f) ∷ es) h = ground (arith, length-put_present key entry e es)

-- No two entries have the same key, as in any map.
abbrev pub Lacks : CacheKey → Entries → Type 0
Lacks key es = All (λ p. key_eq key p.0 ≡ false) es

abbrev pub IsMap : Entries → Type 0
IsMap [] = Unit
IsMap ((k, e) ∷ es) = Lacks k es × IsMap es

key_eq_comm : (k l : CacheKey) → key_eq k l ≡ false → key_eq l k ≡ false
key_eq_comm k l h = ground (arith, key_eq_iff k l, key_eq_iff l k)

Lacks-put :
    (j key : CacheKey) (entry : CacheEntry) (es : Entries)
    → key_eq j key ≡ false
    → Lacks j es
    → Lacks j (put key entry es)
unfolding put
Lacks-put j key entry [] h v = (h, tt)
Lacks-put j key entry ((k, e) ∷ es) h (v, vs) = ground (arith, v, vs, Lacks-put j key entry es h vs)

pub put-IsMap :
    (key : CacheKey) (entry : CacheEntry) (es : Entries) → IsMap es → IsMap (put key entry es)
unfolding put
put-IsMap key entry [] h = (tt, tt)
put-IsMap key entry ((k, e) ∷ es) (l, h) = elim (Bool-cases (key_eq key k)) [
  | inl t ↦ ground (arith, t, l, h)
  | inr f ↦
      ground (arith, f, Lacks-put k key entry es (key_eq_comm key k f) l, put-IsMap key entry es h)
]

Lacks-erase : (j key : CacheKey) (es : Entries) → Lacks j es → Lacks j (erase key es)
unfolding erase
Lacks-erase j key [] v = tt
Lacks-erase j key ((k, e) ∷ es) (v, vs) = ground (arith, v, vs, Lacks-erase j key es vs)

pub erase-IsMap : (key : CacheKey) (es : Entries) → IsMap es → IsMap (erase key es)
unfolding erase
erase-IsMap key [] h = tt
erase-IsMap key ((k, e) ∷ es) (l, h) =
    ground (arith, l, h, Lacks-erase k key es l, erase-IsMap key es h)

pub find-Lacks : (key : CacheKey) (es : Entries) → Lacks key es → find key es ≡ none
unfolding find
find-Lacks key [] v = refl
find-Lacks key ((k, e) ∷ es) (v, vs) = ground (arith, v, find-Lacks key es vs)

-- The key that is erased finds nothing, and what other keys find is as before.
pub find-erase :
    (j key : CacheKey) (es : Entries)
    → IsMap es
    → find j (erase key es) ≡ (if key_eq j key then none else find j es)
unfolding find erase
find-erase j key [] h = ground arith
find-erase j key ((k, e) ∷ es) (l, h) =
    ground
      (arith, key_eq_iff j key, key_eq_iff key k, key_eq_iff j k, find-erase j key es h, at_key)
  where
    at_key : key_eq key k ≡ true → key_eq j key ≡ true → find j es ≡ none
    at_key a b =
        subst (λ (i : CacheKey). find i es ≡ none)
          (sym ((key_eq_iff j key).0 b ∙ (key_eq_iff key k).0 a)) (find-Lacks k es l)

Lacks-remove_expired :
    (j : CacheKey) (now : ℕ) (es : Entries) → Lacks j es → Lacks j (remove_expired now es)
unfolding remove_expired
Lacks-remove_expired j now [] v = tt
Lacks-remove_expired j now ((k, e) ∷ es) (v, vs) =
    ground (arith, v, vs, Lacks-remove_expired j now es vs)

pub remove_expired-IsMap : (now : ℕ) (es : Entries) → IsMap es → IsMap (remove_expired now es)
unfolding remove_expired
remove_expired-IsMap now [] h = tt
remove_expired-IsMap now ((k, e) ∷ es) (l, h) =
    ground (arith, l, h, Lacks-remove_expired k now es l, remove_expired-IsMap now es h)

-- What is left of a lookup when the expired entries are gone.
abbrev pub unless_expired : ℕ → Option CacheEntry → Option CacheEntry
unless_expired now none = none
unless_expired now (some e) = if is_expired now e then none else some e

-- After `gcCache` every key finds what it found before unless that had expired, and then it finds
-- nothing; the hypothesis is that no key stands twice in the cache.
pub find-remove_expired :
    (j : CacheKey) (now : ℕ) (es : Entries)
    → IsMap es
    → find j (remove_expired now es) ≡ unless_expired now (find j es)
unfolding find remove_expired
find-remove_expired j now [] h = refl
find-remove_expired j now ((k, e) ∷ es) (l, h) =
    ground (arith, find-remove_expired j now es h, gone, key_eq_iff j k)
  where
    gone : key_eq j k ≡ true → find j es ≡ none
    gone t =
        subst (λ (i : CacheKey). find i es ≡ none) (sym ((key_eq_iff j k).0 t)) (find-Lacks k es l)
