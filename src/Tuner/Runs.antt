-- ===== src/Tuner/Runs.antt =====
-- Runs of the tuner, and the theorems at them.
use dnss_cpp.Common.{ℕ, zero, suc, ◌+◌, ◌≤◌, ◌≡◌, refl, true, List, [], ◌∷◌, All, ltb, arith}
use dnss_cpp.Latency
use dnss_cpp.Latency.Runs.{fast}
use dnss_cpp.Tuner.{Measure, Reading, Tuner, create, holdoff, min_conns, min_threads}
use dnss_cpp.Tuner.Anomaly.{
  gap_reading, probes, probe, evaluate_gap, track, track_states, is_idle, idle_recovery,
  check_queue, check_errors, check_hits, boost_ttl, detect, cool_down,
}
use dnss_cpp.Tuner.Growth.{
  grow, tune_conns, wanted_conns, boosted_conns, in_turbo, is_saturated, shrunk_conns, grown_conns,
  tune_threads, tune_ttl,
}
use dnss_cpp.Tuner.Cycle.{count_sample, check, observe, tune_all, tune}
use dnss_cpp.Tuner.Bounds.{IsTuned, tune_all-IsTuned}
use dnss_cpp.Tuner.Cooldown.{is_anomaly, anomaly-frozen}
use dnss_cpp.Tuner.Holdoff.{IsSpaced, growths, growths-IsSpaced}
use dnss_cpp.Tuner.Idle.{IsQuietCycle, tune_all-settles}

-- A measurement that is a whole number.
abbrev pub whole : ℕ → Measure
whole n = record { over = λ k. ltb k n; under = λ k. ltb n k }

abbrev quiet : Reading
quiet = record {
  lat = whole 20;
  err = whole 0;
  hit = whole 90;
  util = whole 10;
  trend = whole 0;
  variance = whole 0;
  qps = whole 0;
  p95 = whole 30;
  load = 0;
  boost = 0;
  gap = fast;
}

-- Errors of 6%, and connections that are all in use.
abbrev failing : Reading
failing = record quiet { err = whole 6; lat = whole 250; util = whole 99; load = 4 }

abbrev pub fresh : Tuner
fresh = create 300 300

abbrev pub fresh-IsTuned : IsTuned fresh
fresh-IsTuned = (
  (omega arith, omega arith),
  (omega arith, omega arith),
  (omega arith, omega arith),
  omega arith,
  omega arith,
  (omega arith, omega arith),
)

abbrev pub two_cycles : List (ℕ × Reading)
two_cycles = (holdoff, failing) ∷ (holdoff + 3, quiet) ∷ []

tune_all-IsTuned_example : IsTuned (tune_all two_cycles fresh)
tune_all-IsTuned_example = tune_all-IsTuned two_cycles fresh fresh-IsTuned

-- The first cycle adds three connections: 15 seconds have gone by.
grown : (tune_all ((holdoff, failing) ∷ []) fresh).conn_count ≡ 35
unfolding tune_all tune count_sample check detect observe probe probes evaluate_gap gap_reading
    track_states track idle_recovery is_idle check_queue check_errors check_hits boost_ttl cool_down
    grow tune_conns wanted_conns boosted_conns in_turbo is_saturated shrunk_conns grown_conns
    tune_threads tune_ttl Latency.evaluate Latency.count_over Latency.base_urgency Latency.raise
    Latency.find_bottleneck
grown = refl

growths-IsSpaced_example : IsSpaced 0 (growths two_cycles fresh)
growths-IsSpaced_example =
    growths-IsSpaced two_cycles fresh fresh-IsTuned (omega arith, (omega arith, tt))

abbrev troubled : Tuner
troubled = record fresh { consecutive_high_err = 1 }

spike : is_anomaly 7 failing troubled ≡ true
unfolding is_anomaly detect observe probe evaluate_gap track_states track idle_recovery is_idle
    check_queue check_errors check_hits boost_ttl
spike = refl

anomaly-frozen_example :
    ((tune_all two_cycles (tune 7 failing troubled)).conn_count ≤ 32)
    × ((tune_all two_cycles (tune 7 failing troubled)).thread_count ≤ 20)
anomaly-frozen_example =
    anomaly-frozen 7 failing troubled two_cycles fresh-IsTuned spike (omega arith)

abbrev repeat : ℕ → List (ℕ × Reading)
repeat zero = []
repeat (suc n) = (7, quiet) ∷ repeat n

repeat-IsQuietCycle : (n : ℕ) → All IsQuietCycle (repeat n)
repeat-IsQuietCycle zero = tt
repeat-IsQuietCycle (suc n) = ((refl, refl, refl), repeat-IsQuietCycle n)

tune_all-settles_example :
    ((tune_all (repeat 31) fresh).conn_count ≡ min_conns)
    × ((tune_all (repeat 31) fresh).thread_count ≡ min_threads)
tune_all-settles_example =
    tune_all-settles (repeat 31) fresh fresh-IsTuned (repeat-IsQuietCycle 31) (omega arith)
