-- ===== src/Latency.antt =====
-- latency_manager.hpp and latency_manager.cpp: how urgent it is to be faster, and the boosts that
-- follow. The gap and the rates are floating point; what the code asks of them, each a comparison with
-- a constant, is a Boolean of a reading.
pub mod Bounds
pub mod Runs
use dnss_cpp.Common.{
  ℕ, ◌+◌, ◌-◌, ◌*◌, min, Bool, true, false, ◌&&◌, List, [], ◌∷◌, ltb, leb, ◌==◌, if◌then◌else◌,
}

-- `gap > 10.0` to `gap > 1.5`, `gap >= 1.1`, `cacheHitRate < 0.5`, and the tasks in the pool.
pub record Reading : Type 0 where
  pub over_10 : Bool
  pub over_5 : Bool
  pub over_3 : Bool
  pub over_2 : Bool
  pub over_1_5 : Bool
  pub from_1_1 : Bool
  pub few_hits : Bool
  pub thread_pool_load : ℕ

pub data Bottleneck : Type 0 where
  unknown queue hits upstream : Bottleneck

pub record LatencyManager : Type 0 where
  pub urgency : ℕ
  pub consecutive_over : ℕ
  pub bottleneck : Bottleneck

abbrev pub initial : LatencyManager
initial = record { urgency = 0; consecutive_over = 0; bottleneck = unknown }

unfoldable pub count_over : Reading → ℕ → ℕ
count_over r n = if r.from_1_1 then min (n + 1) 10 else n - 1

unfoldable pub base_urgency : Reading → ℕ
base_urgency r =
    if r.over_10
    then 5
    else if r.over_5
    then 4
    else if r.over_3
    then 3
    else if r.over_2
    then 2
    else if r.over_1_5
    then 1
    else 0

-- A gap that lasts makes it more urgent.
unfoldable pub raise : ℕ → ℕ → ℕ
raise over u =
    let v = if leb 3 over && ltb 0 u then min (u + 1) 5 else u in
    if leb 6 over then min (v + 1) 5 else v

-- The first condition that holds; the last one and none give the same.
unfoldable pub find_bottleneck : Reading → Bottleneck
find_bottleneck r =
    if ltb 10 r.thread_pool_load then queue else if r.few_hits then hits else upstream

unfoldable pub evaluate : Reading → LatencyManager → LatencyManager
evaluate r m =
    let over = count_over r m.consecutive_over in
    record {
      urgency = raise over (base_urgency r);
      consecutive_over = over;
      bottleneck = find_bottleneck r;
    }

unfoldable pub evaluate_all : List Reading → LatencyManager → LatencyManager
evaluate_all [] m = m
evaluate_all (r ∷ rs) m = evaluate_all rs (evaluate r m)

unfoldable pub thread_boost : LatencyManager → ℕ
thread_boost m = if leb m.urgency 0 then 0 else elim m.bottleneck [
  | queue ↦ m.urgency * 3
  | upstream ↦ m.urgency * 2
  | hits ↦ m.urgency
  | unknown ↦ m.urgency
]

unfoldable pub conn_boost : LatencyManager → ℕ
conn_boost m = if leb m.urgency 0 then 0 else elim m.bottleneck [
  | upstream ↦ m.urgency * 2
  | hits ↦ m.urgency * 2
  | queue ↦ m.urgency
  | unknown ↦ m.urgency
]

unfoldable pub cache_refresh_boost : LatencyManager → ℕ
cache_refresh_boost m = if leb m.urgency 0 then 0 else min (2 + m.urgency * 2) 12

unfoldable pub force_fan_out : LatencyManager → Bool
force_fan_out m = ltb 0 m.urgency
