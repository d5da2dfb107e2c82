-- ===== src/Cache/Disk/RoundTrip.antt =====
-- A cache that is saved is loaded again.
use dnss_cpp.Common.{
  ℕ, suc, ◌%◌, ◌^◌, ◌≤◌, ◌<◌, ◌≡◌, refl, sym, ap, ◌∙◌, Bool, true, false, ◌||◌, Option, none, some,
  List, [], ◌∷◌, ◌++◌, arith, ltb, if◌then◌else◌, length, All, Result, ok, Bool-cases, inl, inr,
}
use mathlib.Core.Path.{subst}
use dnss_cpp.Common.Bytes.{IsU32}
use dnss_cpp.Protocol.Message.{DnsMessage}
use dnss_cpp.Protocol.Message.WellFormed.{IsMessage}
use dnss_cpp.Protocol.Parse.{parse}
use dnss_cpp.Protocol.Pack.{pack}
use dnss_cpp.Protocol.Pack.RoundTrip.{parse-pack}
use dnss_cpp.Cache.{Cache, CacheKey, CacheEntry, key_eq}
use dnss_cpp.Cache.Policy.{is_empty, is_expired, clobber_ttl}
use dnss_cpp.Cache.Store.{Entries, find, put}
use dnss_cpp.Cache.Store.Laws.{IsMap, find-put, find-Lacks, key_eq_iff}
use dnss_cpp.Cache.Query.{entry_for}
use dnss_cpp.Cache.Disk.{
  cache_magic, cache_version, le_bytes, le_number, remaining_s, record_bytes, save_packed,
  save_entry, save_entries, count_live, save_cache, keep_loaded, load_entries, load_counted,
  load_cache,
}
use dnss_cpp.Cache.Disk.Records.{
  KeyFits, spread-record_bytes, read_fields-spread, read_bytes-append, reading-append, le_four,
}

parse_size : (wire : List ℕ) (m : DnsMessage) → parse wire ≡ ok m → 12 ≤ length wire
unfolding parse
parse_size wire m e = elim (Bool-cases (ltb (length wire) 12)) [
  | inl h ↦ absurd (short h)
  | inr h ↦ ground arith
]
  where
    short : ltb (length wire) 12 ≡ true → ⊥
    short h = ground (arith, h, e)

-- An entry that can be saved and loaded: a key that fits its fields, a well-formed message of at most
-- 4096 bytes with a question, and at least a whole second left, in 32 bits.
abbrev pub Savable : ℕ → CacheKey × CacheEntry → Type 0
Savable now (k, e) =
    KeyFits k
    × IsMessage e.msg
    × (is_empty e.msg.questions ≡ false)
    × (1 ≤ remaining_s now e)
    × IsU32 (remaining_s now e)
    × ((wire : List ℕ) → pack e.msg ≡ ok wire → length wire ≤ 4096)

-- What is loaded for it: the message with the seconds left as time to live, from the new time on.
abbrev pub restored : ℕ → ℕ → CacheEntry → CacheEntry
restored now later e = entry_for (clobber_ttl (remaining_s now e) e.msg) (remaining_s now e) later

module _ (now later : ℕ) where
  load_all : Entries → Entries → Entries
  load_all [] loaded = loaded
  load_all ((k, e) ∷ es) loaded = load_all es (put k (restored now later e) loaded)

  live : (e : CacheEntry) → 1 ≤ remaining_s now e → now < e.expires_at
  unfolding remaining_s
  live e h = omega arith

  save_one :
      (k : CacheKey) (e : CacheEntry) (wire : List ℕ)
      → Savable now (k, e)
      → pack e.msg ≡ ok wire
      → save_entry now k e ≡ ok (record_bytes k (remaining_s now e) wire)
  unfolding save_entry save_packed
  save_one k e wire (f, m, q, r, u, w) p = ground (arith, live e r, p, f, r, u, w wire p)

  load_one :
      (n : ℕ) (k : CacheKey) (e : CacheEntry) (wire rest : List ℕ) (loaded : Entries)
      → Savable now (k, e)
      → pack e.msg ≡ ok wire
      → parse wire ≡ ok e.msg
      → load_entries (suc n) later (record_bytes k (remaining_s now e) wire ++ rest) loaded
        ≡ load_entries n later rest (put k (restored now later e) loaded)
  unfolding load_entries keep_loaded
  load_one n k e wire rest loaded (f, m, q, r, u, w) p back =
      ap (λ s. load_entries (suc n) later s loaded)
        (spread-record_bytes k (remaining_s now e) wire rest)
      ∙ rw (load_entries, read_fields-spread k (remaining_s now e) wire rest f u (w wire p))
          (rw (in_range (parse_size wire e.msg back) (w wire p))
            (rw (read_bytes-append (length wire) wire rest refl) (rw back (rw q refl))))
    where
      in_range : {n : ℕ} → 12 ≤ n → n ≤ 4096 → (ltb n 12 || ltb 4096 n) ≡ false
      in_range h g = ground arith

  saved :
      (es : Entries)
      → All (Savable now) es
      → (bytes : List ℕ) × (save_entries now es ≡ ok bytes)
        × ((loaded : Entries)
            → load_entries (length es) later bytes loaded ≡ ok (load_all es loaded))
  unfolding save_entries load_all
  saved [] v = ([], refl, (λ loaded. unfold load_entries in refl))
  saved ((k, e) ∷ es) (v, vs) =
      let (wire, p, back) = parse-pack e.msg v.1 in
      let (rest, s, l) = saved es vs in
      (
        record_bytes k (remaining_s now e) wire ++ rest,
        ground (arith, save_one k e wire v p, s),
        (λ loaded.
            load_one (length es) k e wire rest loaded v p back
            ∙ l (put k (restored now later e) loaded)),
      )

  count_all : (es : Entries) → All (Savable now) es → count_live now es ≡ length es
  unfolding count_live is_expired
  count_all [] v = refl
  count_all ((k, e) ∷ es) (v, vs) = ground (arith, live e v.3, count_all es vs)

  -- A lookup in what was loaded, behind what was there.
  find-load_all :
      (j : CacheKey) (es loaded : Entries)
      → IsMap es
      → find j (load_all es loaded)
        ≡ elim (find j es) [ none ↦ find j loaded | some e ↦ some (restored now later e) ]
  unfolding load_all find
  find-load_all j [] loaded h = refl
  find-load_all j ((k, e) ∷ es) loaded (l, h) =
      find-load_all j es (put k (restored now later e) loaded) h ∙ elim (Bool-cases (key_eq j k)) [
        | inl t ↦
            rw
              (subst (λ (i : CacheKey). find i es ≡ none) (sym ((key_eq_iff j k).0 t))
                (find-Lacks k es l))
              (rw (find-put j k (restored now later e) loaded) (rw t refl))
        | inr f ↦ rw f (
            ap
              (λ (o : Option CacheEntry). elim (find j es) [
                | none ↦ o
                | some e ↦ some (restored now later e)
              ])
              (find-put j k (restored now later e) loaded
                ∙ ap (λ b. if b then some (restored now later e) else find j loaded) f))
      ]

-- What an entry found before the cache was saved is found as after it is loaded.
abbrev pub restored_option : ℕ → ℕ → Option CacheEntry → Option CacheEntry
restored_option now later none = none
restored_option now later (some e) = some (restored now later e)

abbrev file_of : ℕ → List ℕ → List ℕ
file_of count records =
    le_bytes 4 cache_magic ++ (le_bytes 4 cache_version ++ (le_bytes 4 count ++ records))

load_file :
    (later count : ℕ) (records : List ℕ) (entries : Entries)
    → count ≤ 100000
    → load_cache later (file_of count records) entries ≡ load_entries count later records entries
unfolding load_cache load_counted le_number le_bytes
load_file later count records entries h =
    ap outcome (reading-append 4 (le_bytes 4 cache_magic) _ _ refl)
    ∙ ap outcome (reading-append 4 (le_bytes 4 cache_version) _ _ refl)
    ∙ ap outcome (reading-append 4 (le_bytes 4 count) _ _ refl)
    ∙ ap (λ (n : ℕ). if ltb 100000 n then ok entries else load_entries n later records entries)
        (le_four count (omega arith))
    ∙ small (ltb 100000 count) (ground arith)
  where
    outcome : Option (Result Entries) → Result Entries
    outcome o = elim o [ none ↦ ok entries | some loaded ↦ loaded ]

    small :
        (b : Bool)
        → b ≡ false
        → (if b then ok entries else load_entries count later records entries)
          ≡ load_entries count later records entries
    small b e = rw e refl

-- Take a cache of at most 50000 entries, one for each key, in which each key fits the fields of a
-- record, and each message is well-formed, has a question, packs to at most 4096 bytes, and has at
-- least one whole second left, in 32 bits. It is saved to a file and loaded from that into an empty
-- cache, at any later time. Every key that found an entry finds the
-- same message then, its records with the whole seconds that the entry had left as time to live, and
-- expires that many seconds after the load; every other key finds nothing.
pub load_cache-save_cache :
    (now later : ℕ) (c : Cache)
    → All (Savable now) c.cache
    → IsMap c.cache
    → length c.cache ≤ 50000
    → (file : List ℕ) × (loaded : Entries) × (save_cache now c ≡ ok file)
      × (load_cache later file [] ≡ ok loaded)
      × ((j : CacheKey) → find j loaded ≡ restored_option now later (find j c.cache))
unfolding save_cache
load_cache-save_cache now later c v m h =
    let (records, s, l) = saved now later c.cache v in
    let n : count_live now c.cache % 2 ^ 32 ≡ length c.cache =
      omega (arith, count_all now later c.cache v) in
    (
      file_of (count_live now c.cache % 2 ^ 32) records,
      load_all now later c.cache [],
      ground (arith, s),
      load_file later (count_live now c.cache % 2 ^ 32) records [] (omega arith)
          ∙ ap (λ (n : ℕ). load_entries n later records []) n
          ∙ l [],
      (λ j. find-load_all now later j c.cache [] m ∙ by_case j (find j c.cache)),
    )
  where
    by_case :
        (j : CacheKey) (o : Option CacheEntry)
        → elim o [ none ↦ find j [] | some e ↦ some (restored now later e) ]
          ≡ restored_option now later o
    by_case j none = unfold find in refl
    by_case j (some e) = refl
