-- ===== src/Cache/Store.antt =====
-- The L2 cache of caching_resolver.cpp: `cache_`, an unordered map, as a list of entries; the place
-- of an entry in the list is its place in the iteration.
pub mod Laws
pub mod Evict
use dnss_cpp.Common.{
  ℕ, ◌-◌, ◌/◌, ◌^◌, Bool, ◌&&◌, Option, none, some, List, [], ◌∷◌, ltb, leb, if◌then◌else◌, length,
}
use dnss_cpp.Cache.{Cache, CacheKey, CacheEntry, key_eq, millisecond}
use dnss_cpp.Cache.Policy.{is_expired}

abbrev pub Entries : Type 0
Entries = List (CacheKey × CacheEntry)

unfoldable pub find : CacheKey → Entries → Option CacheEntry
find key [] = none
find key ((k, e) ∷ rest) = if key_eq key k then some e else find key rest

-- `cache_[key] = entry`
unfoldable pub put : CacheKey → CacheEntry → Entries → Entries
put key entry [] = (key, entry) ∷ []
put key entry ((k, e) ∷ rest) =
    let more = put key entry rest in if key_eq key k then (k, entry) ∷ rest else (k, e) ∷ more

unfoldable pub erase : CacheKey → Entries → Entries
erase key [] = []
erase key ((k, e) ∷ rest) =
    let more = erase key rest in if key_eq key k then rest else (k, e) ∷ more

-- Whole milliseconds that an entry has left, 0 if it has expired.
unfoldable pub remaining_ms : ℕ → CacheEntry → ℕ
remaining_ms now e = (e.expires_at - now) / millisecond

-- The loop that looks for the entry with the shortest positive remaining time.
unfoldable pub evict_scan : ℕ → ℕ → CacheKey → Entries → CacheKey
evict_scan now least victim [] = victim
evict_scan now least victim ((k, e) ∷ rest) =
    let rem = remaining_ms now e in
    let better = evict_scan now rem k rest in
    let same = evict_scan now least victim rest in
    if ltb 0 rem && ltb rem least then better else same

-- It starts from the first entry, and erases what it found.
unfoldable pub evict : ℕ → Entries → Entries
evict now [] = []
evict now ((k, e) ∷ rest) = erase (evict_scan now (2 ^ 64 - 1) k ((k, e) ∷ rest)) ((k, e) ∷ rest)

-- The loop of `gcCache`.
unfoldable pub remove_expired : ℕ → Entries → Entries
remove_expired now [] = []
remove_expired now ((k, e) ∷ rest) =
    let more = remove_expired now rest in if is_expired now e then more else (k, e) ∷ more

unfoldable pub gc_cache : ℕ → Cache → Cache
gc_cache now c = record c { cache = remove_expired now c.cache }

unfoldable pub flush_cache : Cache → Cache
flush_cache c = record c { cache = [] }
