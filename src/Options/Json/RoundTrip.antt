-- ===== src/Options/Json/RoundTrip.antt =====
-- A file of entries as one would write it, and what `parseJson` makes of it.
use dnss_cpp.Common.{
  ℕ, zero, suc, ◌≤◌, ◌≡◌, refl, ap, ◌∙◌, false, some, List, [], ◌∷◌, ◌++◌, arith, ◌==◌, length,
  length-append, All, ok,
}
use dnss_cpp.Common.Text.{split_at}
use dnss_cpp.Common.Search.{IsFree, split_at-IsFree}
use dnss_cpp.DomainMap.{DomainMap, insert}
use dnss_cpp.Http.Url.{erase_while}
use dnss_cpp.Options.Json.{
  quote, is_gap, is_blank, string_value, read_value, read_pair, read_key, read_entry, scan_json,
  parse_json,
}

-- `"key": "value",`
abbrev pub entry_text : List ℕ × List ℕ → List ℕ → List ℕ
entry_text (key, value) rest =
    quote ∷ (key ++ (quote ∷ b':' ∷ 32 ∷ quote ∷ (value ++ (quote ∷ b',' ∷ rest))))

abbrev pub entries_text : List (List ℕ × List ℕ) → List ℕ
entries_text [] = b'}' ∷ []
entries_text (e ∷ es) = entry_text e (entries_text es)

abbrev pub json_text : List (List ℕ × List ℕ) → List ℕ
json_text es = b'{' ∷ entries_text es

-- No quote stands in the key or the value.
abbrev pub IsPlain : List ℕ × List ℕ → Type 0
IsPlain (key, value) = IsFree quote key × IsFree quote value

abbrev pub insert_all : List (List ℕ × List ℕ) → DomainMap → DomainMap
insert_all [] kv = kv
insert_all ((key, value) ∷ es) kv = insert_all es (insert key value kv)

read_entry-text :
    (key value rest : List ℕ)
    → IsPlain (key, value)
    → read_entry (some (key ++ (quote ∷ b':' ∷ 32 ∷ quote ∷ (value ++ (quote ∷ b',' ∷ rest)))))
      ≡ some (key, value, b',' ∷ rest)
unfolding read_entry read_key read_pair read_value string_value split_at erase_while is_gap is_blank
read_entry-text key value rest (k, v) =
    ap read_key (split_at-IsFree quote key _ k)
    ∙ ap (string_value key) (split_at-IsFree quote value (b',' ∷ rest) v)

split_at-quote :
    (c : ℕ) (more : List ℕ)
    → (c == quote) ≡ false
    → (split_at quote (c ∷ quote ∷ more)).1 ≡ some more
unfolding split_at
split_at-quote c more other = ground (arith, other)

-- One round: the next quote opens an entry.
scan_json_entry :
    (fuel c : ℕ) (key value rest : List ℕ) (kv : DomainMap)
    → (c == quote) ≡ false
    → IsPlain (key, value)
    → scan_json (suc fuel) (c ∷ entry_text (key, value) rest) kv
      ≡ scan_json fuel (b',' ∷ rest) (insert key value kv)
unfolding scan_json split_at
scan_json_entry fuel c key value rest kv other plain =
    let read = read_entry-text key value rest plain in
    rw (scan_json, split_at-quote c _ other, read) refl

scan_json_entries :
    (es : List (List ℕ × List ℕ)) (fuel c : ℕ) (kv : DomainMap)
    → length es ≤ fuel
    → (c == quote) ≡ false
    → All IsPlain es
    → scan_json (suc fuel) (c ∷ entries_text es) kv ≡ ok (insert_all es kv)
unfolding scan_json split_at read_entry
scan_json_entries [] fuel c kv h other plain = rw (scan_json, other) refl
scan_json_entries (e ∷ es) zero c kv h other plain = absurd (omega (arith, h))
scan_json_entries ((key, value) ∷ es) (suc n) c kv h other (p, ps) =
    scan_json_entry (suc n) c key value (entries_text es) kv other p
    ∙ scan_json_entries es n b',' (insert key value kv) (omega (arith, h)) refl ps

length-entries_text : (es : List (List ℕ × List ℕ)) → length es ≤ length (entries_text es)
length-entries_text [] = omega arith
length-entries_text ((key, value) ∷ es) = ground (
  arith,
  length-entries_text es,
  length-append key (quote ∷ b':' ∷ 32 ∷ quote ∷ (value ++ (quote ∷ b',' ∷ entries_text es))),
  length-append value (quote ∷ b',' ∷ entries_text es),
)

-- A file that is written as `"key": "value",` for each entry, in braces, where no key and no value has a
-- quote in it, is read as the map into which the entries are put in order, so that the last value of a
-- key stays.
pub parse_json-json_text :
    (es : List (List ℕ × List ℕ))
    → All IsPlain es
    → parse_json (json_text es) ≡ ok (insert_all es [])
unfolding parse_json
parse_json-json_text es plain =
    scan_json_entries es (length (json_text es)) b'{' [] (omega (arith, length-entries_text es))
      refl plain
