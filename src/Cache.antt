-- ===== src/Cache.antt =====
-- The state of caching_resolver.hpp and caching_resolver.cpp. Time is in nanoseconds, as
-- `steady_clock` counts it. Every pointer that is stored in `cache_` is set, so an entry holds a
-- message; a slot of the turbo cache is empty at first.
pub mod Policy
pub mod Turbo
pub mod Store
pub mod Query
pub mod Peek
pub mod Disk
pub mod Runs
use dnss_cpp.Common.{
  ℕ, ◌+◌, ◌*◌, ◌%◌, ◌^◌, Bool, ◌&&◌, Option, none, some, List, [], ◌∷◌, ◌==◌, if◌then◌else◌,
  bit_xor,
}
use dnss_cpp.Common.Text.{text_eq}
use dnss_cpp.Protocol.Message.{DnsMessage, DnsQuestion}
use dnss_cpp.Perf.{Counters}

pub record CacheKey : Type 0 where
  pub name : List ℕ
  pub type : ℕ
  pub qclass : ℕ

-- `ttl` is in seconds.
pub record CacheEntry : Type 0 where
  pub msg : DnsMessage
  pub ttl : ℕ
  pub expires_at : ℕ

pub record TurboSlot : Type 0 where
  pub key_hash : ℕ
  pub msg : Option DnsMessage
  pub expires_at : ℕ

pub record StaleRefreshWork : Type 0 where
  pub key : CacheKey
  pub question : DnsQuestion

-- The static settings that the tuner writes, in seconds.
pub record Settings : Type 0 where
  pub min_ttl : ℕ
  pub negative_ttl : ℕ
  pub stale_threshold : ℕ

-- `turbo` and `turbo_freq` are arrays of 4096 elements, `cache` is `cache_`.
pub record Cache : Type 0 where
  pub turbo : ℕ → TurboSlot
  pub turbo_freq : ℕ → ℕ
  pub cache : List (CacheKey × CacheEntry)
  pub stale_refresh_queue : List StaleRefreshWork
  pub prewarm_tracker : List (List ℕ × ℕ)
  pub total_queries : ℕ
  pub cache_hits : ℕ
  pub cache_misses : ℕ
  pub cache_recorded : ℕ
  pub preemptive_refreshes : ℕ
  pub stale_hits : ℕ
  pub turbo_hits : ℕ
  pub perf : Counters

abbrev pub second : ℕ
second = 1_000_000_000

abbrev pub millisecond : ℕ
millisecond = 1_000_000

abbrev pub max_cache_size : ℕ
max_cache_size = 50000

abbrev pub max_ttl : ℕ
max_ttl = 7200

abbrev pub max_stale_refresh_queue : ℕ
max_stale_refresh_queue = 64

abbrev pub key_of : DnsQuestion → CacheKey
key_of q = record { name = q.qname; type = q.qtype; qclass = q.qclass }

unfoldable pub key_eq : CacheKey → CacheKey → Bool
key_eq k l = text_eq k.name l.name && ((k.type == l.type) && (k.qclass == l.qclass))

-- FNV-1a over the name, on 64 bits.
unfoldable pub hash_name : ℕ → List ℕ → ℕ
hash_name h [] = h
hash_name h (c ∷ cs) = hash_name (bit_xor h c * 1099511628211 % 2 ^ 64) cs

unfoldable pub turbo_hash : CacheKey → ℕ
turbo_hash k = bit_xor (bit_xor (hash_name 14695981039346656037 k.name) (k.type * 2 ^ 16)) k.qclass
