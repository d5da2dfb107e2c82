-- ===== src/Cache/Disk.antt =====
-- `saveCache` and `loadCache` of caching_resolver.cpp: the cache in a file. Numbers are written as
-- they stand in memory, low byte first. A stream is what is left of the file, and a read of more
-- than is left makes it fail, after which the loop of `loadCache` ends. The file is opened by a
-- library; that it can be is not modelled.
pub mod Records
pub mod RoundTrip
pub mod Runs
use dnss_cpp.Common.{
  ℕ, zero, suc, ◌+◌, ◌-◌, ◌*◌, ◌/◌, ◌%◌, ◌^◌, Bool, true, false, not, ◌||◌, Option, none, some,
  List, [], ◌∷◌, ◌++◌, ltb, leb, ◌==◌, if◌then◌else◌, length, take, drop, Result, ok, ◌>>=◌,
}
use dnss_cpp.Protocol.Message.{DnsMessage}
use dnss_cpp.Protocol.Parse.{parse}
use dnss_cpp.Protocol.Pack.{pack}
use dnss_cpp.Cache.{Cache, CacheKey, CacheEntry, second}
use dnss_cpp.Cache.Policy.{is_empty, is_expired, clobber_ttl}
use dnss_cpp.Cache.Store.{Entries, put}
use dnss_cpp.Cache.Query.{entry_for}

abbrev pub cache_magic : ℕ
cache_magic = 0x4C594E58

abbrev pub cache_version : ℕ
cache_version = 1

-- A number of `n` bytes in memory.
unfoldable pub le_bytes : ℕ → ℕ → List ℕ
le_bytes zero v = []
le_bytes (suc n) v = v % 256 ∷ le_bytes n (v / 256)

unfoldable pub le_number : List ℕ → ℕ
le_number [] = 0
le_number (b ∷ bs) = b + 256 * le_number bs

unfoldable pub remaining_s : ℕ → CacheEntry → ℕ
remaining_s now e = (e.expires_at - now) / second

abbrev pub record_bytes : CacheKey → ℕ → List ℕ → List ℕ
record_bytes k ttl wire =
    le_bytes 1 (length k.name)
    ++ (k.name
        ++ (le_bytes 2 k.type
            ++ (le_bytes 2 k.qclass ++ (le_bytes 4 ttl ++ (le_bytes 2 (length wire) ++ wire)))))

-- The body of the second loop: what it writes for an entry, nothing if it goes on before.
unfoldable pub save_packed : CacheKey → ℕ → List ℕ → List ℕ
save_packed k ttl wire = if ltb 65535 (length wire) then [] else record_bytes k (ttl % 2 ^ 32) wire

unfoldable pub save_entry : ℕ → CacheKey → CacheEntry → Result (List ℕ)
save_entry now k e =
    let packed = (do wire ← pack e.msg; ok (save_packed k (remaining_s now e) wire)) in
    if leb e.expires_at now
    then ok []
    else if ltb (remaining_s now e) 1
    then ok []
    else if ltb 255 (length k.name)
    then ok []
    else packed

unfoldable pub save_entries : ℕ → Entries → Result (List ℕ)
save_entries now [] = ok []
save_entries now ((k, e) ∷ es) = do
  bytes ← save_entry now k e
  rest ← save_entries now es
  ok (bytes ++ rest)

-- The first loop counts the entries that have not expired.
unfoldable pub count_live : ℕ → Entries → ℕ
count_live now [] = 0
count_live now ((k, e) ∷ es) =
    if is_expired now e then count_live now es else suc (count_live now es)

unfoldable pub save_cache : ℕ → Cache → Result (List ℕ)
save_cache now c = do
  records ← save_entries now c.cache
  ok (
      le_bytes 4 cache_magic
      ++ (le_bytes 4 cache_version ++ (le_bytes 4 (count_live now c.cache % 2 ^ 32) ++ records)))

-- `in.read` of `n` bytes.
unfoldable pub read_bytes : ℕ → List ℕ → Option (List ℕ × List ℕ)
read_bytes n stream = if leb n (length stream) then some (take n stream, drop n stream) else none

-- A read, and what follows if it succeeds.
unfoldable pub reading {ℓ} : {A : Type ℓ} → ℕ → List ℕ → (List ℕ → List ℕ → Option A) → Option A
reading n stream next = elim (read_bytes n stream) [
  | none ↦ none
  | some (bytes, rest) ↦ next bytes rest
]

-- The fields before the message.
pub record Fields : Type 0 where
  pub key : CacheKey
  pub ttl : ℕ
  pub wire_len : ℕ
  pub rest : List ℕ

unfoldable pub read_fields : List ℕ → Option Fields
read_fields stream = reading 1 stream λ n s. reading (le_number n) s λ name s. reading 2 s λ type s.
    reading 2 s λ qclass s. reading 4 s λ ttl s. reading 2 s λ size s. some (record {
      key = record { name = name; type = le_number type; qclass = le_number qclass };
      ttl = le_number ttl;
      wire_len = le_number size;
      rest = s;
    })

-- A message with no question is not kept.
unfoldable pub keep_loaded : ℕ → Fields → DnsMessage → Entries → Entries
keep_loaded now f m entries =
    if is_empty m.questions
    then entries
    else put f.key (entry_for (clobber_ttl f.ttl m) f.ttl now) entries

-- The loop: a record with a size out of range is given up before its message is read.
unfoldable pub load_entries : ℕ → ℕ → List ℕ → Entries → Result Entries
load_entries zero now stream entries = ok entries
load_entries (suc count) now stream entries = elim (read_fields stream) [
  | none ↦ ok entries
  | some f ↦ elim (ltb f.wire_len 12 || ltb 4096 f.wire_len) [
    | true ↦ load_entries count now f.rest entries
    | false ↦ elim (read_bytes f.wire_len f.rest) [
      | none ↦ ok entries
      | some (wire, rest) ↦
          parse wire >>= λ m. load_entries count now rest (keep_loaded now f m entries)
    ]
  ]
]

-- The header: a file that is too short has no magic number to compare, and is taken for one with a
-- wrong number.
unfoldable pub load_counted : ℕ → Entries → List ℕ → List ℕ → Result Entries
load_counted now entries count stream =
    let loaded = load_entries (le_number count) now stream entries in
    if ltb 100000 (le_number count) then ok entries else loaded

unfoldable pub load_cache : ℕ → List ℕ → Entries → Result Entries
load_cache now file entries =
    elim (reading 4 file λ magic s.
      if not (le_number magic == cache_magic)
      then none
      else reading 4 s λ version s.
        if not (le_number version == cache_version)
        then none
        else reading 4 s λ count s. some (load_counted now entries count s)) [
          | none ↦ ok entries
          | some loaded ↦ loaded
        ]
