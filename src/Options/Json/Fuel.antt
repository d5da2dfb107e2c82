-- ===== src/Options/Json/Fuel.antt =====
-- The loop of `parseJson` ends: each round leaves a shorter text.
use dnss_cpp.Common.{
  ℕ, zero, suc, ◌+◌, ◌≤◌, ◌≡◌, refl, Bool, Option, none, some, List, [], ◌∷◌, arith, ◌==◌, length,
  ok, Bool-cases, inl, inr,
}
use dnss_cpp.Common.Text.{split_at}
use dnss_cpp.DomainMap.{DomainMap, insert}
use dnss_cpp.Http.Url.{erase_while}
use dnss_cpp.Options.Json.{
  quote, is_gap, ends_word, until, string_value, read_value, read_pair, read_key, read_entry,
  scan_json, parse_json,
}

-- What is left, in at most this many bytes.
abbrev Within : ℕ → Option (List ℕ) → Type 0
Within n none = Unit
Within n (some rest) = length rest + 1 ≤ n

abbrev Leaves : ℕ → Option (List ℕ × List ℕ × List ℕ) → Type 0
Leaves n none = Unit
Leaves n (some (key, value, rest)) = length rest ≤ n

split_at-Within : (c : ℕ) (text : List ℕ) → Within (length text) (split_at c text).1
unfolding split_at
split_at-Within c [] = tt
split_at-Within c (b ∷ bs) = ground (arith, split_at-Within c bs)

until_shorter : (test : ℕ → Bool) (text : List ℕ) → length (until test text).1 ≤ length text
unfolding until
until_shorter test [] = omega arith
until_shorter test (b ∷ bs) = ground (arith, until_shorter test bs)

erase_while_shorter :
    (test : ℕ → Bool) (text : List ℕ) → length (erase_while test text) ≤ length text
unfolding erase_while
erase_while_shorter test [] = omega arith
erase_while_shorter test (b ∷ bs) = ground (arith, erase_while_shorter test bs)

string_value-Leaves :
    (key : List ℕ) (n : ℕ) (p : List ℕ × Option (List ℕ))
    → Within n p.1
    → Leaves n (string_value key p)
unfolding string_value
string_value-Leaves key n (value, none) h = tt
string_value-Leaves key n (value, some rest) h = omega (arith, h)

Leaves-wider : (n m : ℕ) (o : Option (List ℕ × List ℕ × List ℕ)) → n ≤ m → Leaves n o → Leaves m o
Leaves-wider n m none h k = tt
Leaves-wider n m (some (key, value, rest)) h k = omega (arith, h, k)

read_value-Leaves : (key text : List ℕ) → Leaves (length text) (read_value key text)
unfolding read_value
read_value-Leaves key [] = tt
read_value-Leaves key (b ∷ bs) = elim (Bool-cases (b == quote)) [
  | inl opened ↦ rw opened (
      Leaves-wider (length bs) (suc (length bs)) _ (omega arith)
        (string_value-Leaves key (length bs) (split_at quote bs) (split_at-Within quote bs)))
  | inr word ↦ rw word (until_shorter ends_word (b ∷ bs))
]

read_pair-Leaves :
    (key : List ℕ) (n : ℕ) (o : Option (List ℕ)) → Within n o → Leaves n (read_pair key o)
unfolding read_pair
read_pair-Leaves key n none h = tt
read_pair-Leaves key n (some more) h =
    Leaves-wider (length (erase_while is_gap more)) n _
      (omega (arith, h, erase_while_shorter is_gap more))
      (read_value-Leaves key (erase_while is_gap more))

read_key-Leaves : (n : ℕ) (p : List ℕ × Option (List ℕ)) → Within n p.1 → Leaves n (read_key p)
unfolding read_key
read_key-Leaves n (key, none) h = tt
read_key-Leaves n (key, some more) h =
    Leaves-wider (length more) n _ (omega (arith, h))
      (read_pair-Leaves key (length more) (split_at b':' more).1 (split_at-Within b':' more))

-- A round takes the quote of its key at least.
read_entry-Leaves : (n : ℕ) (o : Option (List ℕ)) → Within (suc n) o → Leaves n (read_entry o)
unfolding read_entry
read_entry-Leaves n none h = tt
read_entry-Leaves n (some more) h =
    Leaves-wider (length more) n _ (omega (arith, h))
      (read_key-Leaves (length more) (split_at quote more) (split_at-Within quote more))

Scans : ℕ → List ℕ → DomainMap → Type 0
Scans fuel text kv = (m : DomainMap) × (scan_json fuel text kv ≡ ok m)

Within-wider : (n m : ℕ) (o : Option (List ℕ)) → n ≤ m → Within n o → Within m o
Within-wider n m none h k = tt
Within-wider n m (some rest) h k = omega (arith, h, k)

-- A round with enough fuel for what it leaves.
next_round :
    (n : ℕ) (text : List ℕ) (kv : DomainMap) (o : Option (List ℕ × List ℕ × List ℕ))
    → read_entry (split_at quote text).1 ≡ o
    → Leaves n o
    → ((rest : List ℕ) (kv : DomainMap) → length rest ≤ n → Scans (suc n) rest kv)
    → Scans (suc (suc n)) text kv
unfolding Scans scan_json
next_round n text kv none e h more = (kv, rw (scan_json, e) refl)
next_round n text kv (some (key, value, rest)) e h more =
    let (m, scanned) = more rest (insert key value kv) h in (m, rw (scan_json, e) scanned)

scan_json_enough :
    (fuel : ℕ) (text : List ℕ) (kv : DomainMap) → length text ≤ fuel → Scans (suc fuel) text kv
unfolding Scans scan_json split_at read_entry
scan_json_enough zero [] kv h = (kv, refl)
scan_json_enough zero (b ∷ bs) kv h = absurd (omega (arith, h))
scan_json_enough (suc n) text kv h =
    next_round n text kv _ refl
      (read_entry-Leaves n (split_at quote text).1
        (Within-wider (length text) (suc n) _ (omega (arith, h)) (split_at-Within quote text)))
      (λ rest kv' short. scan_json_enough n rest kv' short)

-- `parseJson` ends for every text, whatever stands in it, and gives a map.
pub parse_json_total : (content : List ℕ) → (kv : DomainMap) × (parse_json content ≡ ok kv)
unfolding parse_json Scans
parse_json_total content = scan_json_enough (length content) content [] (omega arith)
