-- ===== src/Options/Json.antt =====
-- `parseJson` of main.cpp: every `"key": "value"` or `"key": word` of the file, in order. A round of the
-- loop takes the rest of the text; `std::map` keeps the last value of a key.
pub mod Fuel
pub mod RoundTrip
use dnss_cpp.Common.{
  ℕ, zero, suc, ◌+◌, Bool, true, false, ◌||◌, Option, none, some, List, [], ◌∷◌, ◌==◌,
  if◌then◌else◌, length, Result, ok, out_of_fuel,
}
use dnss_cpp.Common.Text.{split_at}
use dnss_cpp.DomainMap.{DomainMap, insert}
use dnss_cpp.Http.Url.{pop_while, erase_while}

abbrev pub quote : ℕ
quote = 34

unfoldable pub is_blank : ℕ → Bool
is_blank c = (c == 32) || (c == 9)

-- " \t\r\n"
unfoldable pub is_gap : ℕ → Bool
is_gap c = is_blank c || (c == 13) || (c == 10)

-- ",}\n\r"
unfoldable pub ends_word : ℕ → Bool
ends_word c = (c == b',') || (c == b'}') || (c == 10) || (c == 13)

-- The text before the first character that passes the test, and the text from there.
unfoldable pub until : (ℕ → Bool) → List ℕ → List ℕ × List ℕ
until test [] = ([], [])
until test (b ∷ bs) =
    let (before, from) = until test bs in if test b then ([], b ∷ bs) else (b ∷ before, from)

unfoldable pub string_value : List ℕ → List ℕ × Option (List ℕ) → Option (List ℕ × List ℕ × List ℕ)
string_value key (value, none) = none
string_value key (value, some rest) = some (key, value, rest)

unfoldable pub read_value : List ℕ → List ℕ → Option (List ℕ × List ℕ × List ℕ)
read_value key [] = none
read_value key (b ∷ bs) =
    let (word, from) = until ends_word (b ∷ bs) in
    if b == quote
    then string_value key (split_at quote bs)
    else some (key, pop_while is_blank (erase_while is_blank word), from)

-- The colon behind the key, and the value.
unfoldable pub read_pair : List ℕ → Option (List ℕ) → Option (List ℕ × List ℕ × List ℕ)
read_pair key none = none
read_pair key (some more) = read_value key (erase_while is_gap more)

unfoldable pub read_key : List ℕ × Option (List ℕ) → Option (List ℕ × List ℕ × List ℕ)
read_key (key, none) = none
read_key (key, some more) = read_pair key (split_at b':' more).1

-- A key, its value, and the rest of the text.
unfoldable pub read_entry : Option (List ℕ) → Option (List ℕ × List ℕ × List ℕ)
read_entry none = none
read_entry (some more) = read_key (split_at quote more)

unfoldable pub scan_json : ℕ → List ℕ → DomainMap → Result DomainMap
scan_json zero text kv = out_of_fuel
scan_json (suc fuel) text kv = elim (read_entry (split_at quote text).1) [
  | none ↦ ok kv
  | some (key, value, rest) ↦ scan_json fuel rest (insert key value kv)
]

unfoldable pub parse_json : List ℕ → Result DomainMap
parse_json content = scan_json (suc (length content)) content []
