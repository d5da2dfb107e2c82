-- ===== src/Tuner/Bounds.antt =====
-- The ranges that every cycle of the tuner keeps.
use dnss_cpp.Common.{ℕ, ◌≤◌, Bool, List, [], ◌∷◌, arith}
use dnss_cpp.Tuner.{Reading, Tuner, min_conns, max_conns, min_threads, max_threads}
use dnss_cpp.Tuner.Anomaly.{
  probe, evaluate_gap, track_states, is_idle, idle_recovery, check_queue, check_errors, check_hits,
  boost_ttl, detect, cool_down,
}
use dnss_cpp.Tuner.Growth.{
  turbo_conns, shrunk_conns, grown_conns, wanted_conns, boosted_conns, tune_conns, tune_fan_out,
  turbo_threads, tune_threads, tune_refresh, tune_ttl, grow,
}
use dnss_cpp.Tuner.Cycle.{count_sample, observe, check, tune, tune_all}

-- Connections, threads, the refresh threshold in percent, the turbo counter, the cooldown, and the TTLs in seconds.
abbrev pub IsTuned : Tuner → Type 0
IsTuned t =
    ((min_conns ≤ t.conn_count) × (t.conn_count ≤ max_conns))
    × ((min_threads ≤ t.thread_count) × (t.thread_count ≤ max_threads))
    × ((5 ≤ t.refresh_pct) × (t.refresh_pct ≤ 15))
    × (t.turbo_cycles ≤ 10)
    × (t.anomaly_cooldown ≤ 6)
    × ((t.min_ttl ≤ 7200) × (t.negative_ttl ≤ 3600))

observe-IsTuned : (r : Reading) (t : Tuner) → IsTuned t → IsTuned (observe r t)
unfolding observe probe evaluate_gap track_states
observe-IsTuned r t h = h

idle_recovery-IsTuned : (r : Reading) (t : Tuner) → IsTuned t → IsTuned (idle_recovery r t)
unfolding idle_recovery
idle_recovery-IsTuned r t h = ground arith

check_queue-IsTuned : (r : Reading) (t : Tuner) → IsTuned t → IsTuned (check_queue r t).1
unfolding check_queue
check_queue-IsTuned r t h = ground arith

check_errors-IsTuned :
    (now : ℕ) (r : Reading) (c : Bool × Tuner) → IsTuned c.1 → IsTuned (check_errors now r c).1
unfolding check_errors
check_errors-IsTuned now r (a, t) h = ground arith

check_hits-IsTuned : (r : Reading) (c : Bool × Tuner) → IsTuned c.1 → IsTuned (check_hits r c).1
unfolding check_hits
check_hits-IsTuned r (a, t) h = ground arith

boost_ttl-IsTuned : (r : Reading) (c : Bool × Tuner) → IsTuned c.1 → IsTuned (boost_ttl r c).1
unfolding boost_ttl
boost_ttl-IsTuned r (a, t) h = ground arith

cool_down-IsTuned :
    (now : ℕ) (idle : Bool) (c : Bool × Tuner) → IsTuned c.1 → IsTuned (cool_down now idle c).1
unfolding cool_down
cool_down-IsTuned now idle (a, t) h = ground arith

check-IsTuned : (now : ℕ) (r : Reading) (t : Tuner) → IsTuned t → IsTuned (check now r t).1
unfolding check detect
check-IsTuned now r t h =
    let seen = observe r t in
    cool_down-IsTuned now (is_idle r seen) (detect now r seen) (
      boost_ttl-IsTuned r _ (
        check_hits-IsTuned r _ (
          check_errors-IsTuned now r _
            (check_queue-IsTuned r _ (idle_recovery-IsTuned r seen (observe-IsTuned r t h))))))

abbrev HasConns : ℕ → Type 0
HasConns n = (min_conns ≤ n) × (n ≤ max_conns)

turbo_conns-HasConns : (r : Reading) (cur : ℕ) → HasConns cur → HasConns (turbo_conns r cur)
unfolding turbo_conns
turbo_conns-HasConns r cur h = ground arith

shrunk_conns-HasConns :
    (r : Reading) (t : Tuner) → HasConns t.conn_count → HasConns (shrunk_conns r t)
unfolding shrunk_conns
shrunk_conns-HasConns r t h = ground arith

grown_conns-HasConns :
    (r : Reading) (t : Tuner) (new : ℕ)
    → HasConns t.conn_count
    → HasConns new
    → HasConns (grown_conns r t new)
unfolding grown_conns
grown_conns-HasConns r t new h k = ground arith

wanted_conns-HasConns :
    (r : Reading) (t : Tuner) → HasConns t.conn_count → HasConns (wanted_conns r t)
unfolding wanted_conns
wanted_conns-HasConns r t h = ground (
  arith,
  turbo_conns-HasConns r t.conn_count h,
  shrunk_conns-HasConns r t h,
  grown_conns-HasConns r t (shrunk_conns r t) h (shrunk_conns-HasConns r t h),
)

boosted_conns-HasConns :
    (r : Reading) (t : Tuner) (new : ℕ) → HasConns new → HasConns (boosted_conns r t new)
unfolding boosted_conns
boosted_conns-HasConns r t new h = ground arith

tune_conns-IsTuned : (now : ℕ) (r : Reading) (t : Tuner) → IsTuned t → IsTuned (tune_conns now r t)
unfolding tune_conns
tune_conns-IsTuned now r t h =
    ground (arith, boosted_conns-HasConns r t (wanted_conns r t) (wanted_conns-HasConns r t h.0))

turbo_threads_le : (r : Reading) (t : Tuner) → t.turbo_cycles ≤ 10 → (turbo_threads r t).0 ≤ 10
unfolding turbo_threads
turbo_threads_le r t h = ground arith

tune_threads-IsTuned :
    (r : Reading) (conns : ℕ) (t : Tuner) → IsTuned t → IsTuned (tune_threads r conns t)
unfolding tune_threads
tune_threads-IsTuned r conns t h = ground (arith, turbo_threads_le r t)

tune_refresh_range :
    (r : Reading) (t : Tuner)
    → (5 ≤ t.refresh_pct) × (t.refresh_pct ≤ 15)
    → (5 ≤ tune_refresh r t) × (tune_refresh r t ≤ 15)
unfolding tune_refresh
tune_refresh_range r t h = ground arith

tune_ttl-IsTuned : (r : Reading) (t : Tuner) → IsTuned t → IsTuned (tune_ttl r t)
unfolding tune_ttl
tune_ttl-IsTuned r t h = ground arith

grow-IsTuned : (now : ℕ) (r : Reading) (t : Tuner) → IsTuned t → IsTuned (grow now r t)
unfolding grow
grow-IsTuned now r t h =
    let c = tune_conns-IsTuned now r t h in
    let fan = record (tune_conns now r t) { fan_out = tune_fan_out r (tune_conns now r t) } in
    let threads = tune_threads r t.conn_count fan in
    let k = tune_threads-IsTuned r t.conn_count fan c in
    tune_ttl-IsTuned r (record threads { refresh_pct = tune_refresh r threads })
      (k.0, k.1, tune_refresh_range r threads k.2, k.3, k.4, k.5)

pub tune-IsTuned : (now : ℕ) (r : Reading) (t : Tuner) → IsTuned t → IsTuned (tune now r t)
unfolding tune count_sample
tune-IsTuned now r t h =
    ground (
      arith,
      check-IsTuned now r t h,
      grow-IsTuned now r (check now r t).1 (check-IsTuned now r t h),
    )

-- Whatever the readings are, the tuner keeps the connections between 24 and 48, the threads between 16
-- and 32, the refresh threshold between 5 and 15 percent, the turbo counter at most 10, the
-- cooldown at most 6 cycles, the minimum TTL at most 7200 and the negative TTL at most 3600 seconds, if they are so before.
pub tune_all-IsTuned :
    (cycles : List (ℕ × Reading)) (t : Tuner) → IsTuned t → IsTuned (tune_all cycles t)
unfolding tune_all
tune_all-IsTuned [] t h = h
tune_all-IsTuned ((now, r) ∷ cycles) t h =
    tune_all-IsTuned cycles (tune now r t) (tune-IsTuned now r t h)
