-- ===== src/Tuner.antt =====
-- The state of auto_tuner.hpp and auto_tuner.cpp, and what a cycle of the tuner reads. The measurements
-- are floating point; what the code asks of one is whether it is over or under a constant, so a
-- measurement is these two tests. Time is in nanoseconds.
pub mod Anomaly
pub mod Growth
pub mod Cycle
pub mod Bounds
pub mod Holdoff
pub mod Cooldown
pub mod Idle
pub mod Runs
use dnss_cpp.Common.{ℕ, ◌*◌, Bool, true, false}
use dnss_cpp.Cache.{second}
use dnss_cpp.Latency.{LatencyManager}
use dnss_cpp.Latency

pub record Measure : Type 0 where
  pub over : ℕ → Bool
  pub under : ℕ → Bool

-- `err`, `hit` and `util` are compared in hundredths, the latencies in milliseconds. `load` is
-- `threadPoolLoad`, and `boost` is `static_cast<int>((lat - 50) * 2)`. `gap` holds the comparisons that
-- LatencyManager makes.
pub record Reading : Type 0 where
  pub lat : Measure
  pub err : Measure
  pub hit : Measure
  pub util : Measure
  pub trend : Measure
  pub variance : Measure
  pub qps : Measure
  pub p95 : Measure
  pub load : ℕ
  pub boost : ℕ
  pub gap : Latency.Reading

-- `min_ttl` and `negative_ttl` are the static settings of the caching resolver.
pub record Tuner : Type 0 where
  pub conn_count : ℕ
  pub thread_count : ℕ
  pub refresh_pct : ℕ
  pub fan_out : Bool
  pub consecutive_high_lat : ℕ
  pub consecutive_high_err : ℕ
  pub consecutive_low_load : ℕ
  pub samples_collected : ℕ
  pub turbo_cycles : ℕ
  pub anomaly_cooldown : ℕ
  pub last_conn_change : ℕ
  pub prev_urgency : ℕ
  pub probe_cooldown : ℕ
  pub latency : LatencyManager
  pub min_ttl : ℕ
  pub negative_ttl : ℕ

abbrev pub min_conns : ℕ
min_conns = 24

abbrev pub max_conns : ℕ
max_conns = 48

abbrev pub min_threads : ℕ
min_threads = 16

abbrev pub max_threads : ℕ
max_threads = 32

-- `CONN_CHANGE_HOLDOFF`
abbrev pub holdoff : ℕ
holdoff = 15 * second

-- `min_ttl` and `neg_ttl` are what the settings are at the start.
abbrev pub create : ℕ → ℕ → Tuner
create min_ttl neg_ttl = record {
  conn_count = 32;
  thread_count = 20;
  refresh_pct = 10;
  fan_out = true;
  consecutive_high_lat = 0;
  consecutive_high_err = 0;
  consecutive_low_load = 0;
  samples_collected = 0;
  turbo_cycles = 0;
  anomaly_cooldown = 0;
  last_conn_change = 0;
  prev_urgency = 0;
  probe_cooldown = 0;
  latency = Latency.initial;
  min_ttl = min_ttl;
  negative_ttl = neg_ttl;
}
