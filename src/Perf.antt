-- ===== src/Perf.antt =====
-- The counters of perf_monitor.hpp and perf_monitor.cpp. They are 64 bit and do not wrap here; the
-- latency window and the averages, which are floating point, are left out.
use dnss_cpp.Common.{ℕ, ◌+◌, ◌/◌, Bool, if◌then◌else◌, ltb}

pub record Counters : Type 0 where
  pub cache_hits : ℕ
  pub cache_misses : ℕ
  pub errors : ℕ
  pub queries : ℕ

unfoldable pub record_dns_query : Counters → Counters
record_dns_query c = record c { queries = c.queries + 1 }

unfoldable pub record_cache_hit : Counters → Counters
record_cache_hit c = record c { cache_hits = c.cache_hits + 1 }

unfoldable pub record_cache_miss : Counters → Counters
record_cache_miss c = record c { cache_misses = c.cache_misses + 1 }

-- Background work sets `noiseFilter_`, and is not counted.
unfoldable pub record_error : Bool → Counters → Counters
record_error noise c = if noise then c else record c { errors = c.errors + 1 }

unfoldable pub decay_errors : Counters → Counters
decay_errors c = if ltb 0 c.errors then record c { errors = c.errors / 2 } else c
