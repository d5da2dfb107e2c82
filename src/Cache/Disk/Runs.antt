-- ===== src/Cache/Disk/Runs.antt =====
-- A run of the cache file, and the theorem at it.
use dnss_cpp.Common.{ℕ, ◌*◌, ◌≤◌, ◌≡◌, refl, List, [], ◌∷◌, length, arith, ok}
use dnss_cpp.Protocol.Name.{name_to_wire, is_root, emit_labels, emit_label, split_dot}
use dnss_cpp.Protocol.Pack.{pack, packed_size, question_size, rr_size, add_sizes}
use dnss_cpp.Protocol.Pack.Sizes.{packed_size-pack}
use dnss_cpp.Protocol.Runs.{message, message-IsMessage}
use dnss_cpp.Cache.{CacheKey, CacheEntry, second}
use dnss_cpp.Cache.Policy.{is_empty}
use dnss_cpp.Cache.Store.{Entries, find}
use dnss_cpp.Cache.Disk.{remaining_s, save_cache, load_cache}
use dnss_cpp.Cache.Disk.RoundTrip.{Savable, restored_option, load_cache-save_cache}
use dnss_cpp.Cache.Runs.{holding}

abbrev key : CacheKey
key = record { name = b'a' ∷ []; type = 1; qclass = 1 }

abbrev entry : CacheEntry
entry = record { msg = message; ttl = 300; expires_at = 10 * second }

size : packed_size message ≡ ok 64
unfolding packed_size question_size rr_size add_sizes name_to_wire is_root emit_labels emit_label
    split_dot
size = refl

small : (wire : List ℕ) → pack message ≡ ok wire → length wire ≤ 4096
small wire p = ground (arith, packed_size-pack message wire p, size)

entry-Savable : Savable second (key, entry)
unfolding is_empty remaining_s
entry-Savable = (
  (omega arith, omega arith, omega arith),
  message-IsMessage,
  refl,
  omega arith,
  omega arith,
  small,
)

load_cache-save_cache_example :
    (file : List ℕ) × (loaded : Entries) × (save_cache second (holding ((key, entry) ∷ []))
      ≡ ok file)
    × (load_cache 0 file [] ≡ ok loaded)
    × ((j : CacheKey) → find j loaded ≡ restored_option second 0 (find j ((key, entry) ∷ [])))
load_cache-save_cache_example =
    load_cache-save_cache second 0 (holding ((key, entry) ∷ [])) (entry-Savable, tt) (tt, tt)
      (omega arith)
