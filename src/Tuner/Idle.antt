-- ===== src/Tuner/Idle.antt =====
-- The tuner gives back what it has taken when nothing is asked of the server.
use dnss_cpp.Common.{
  ℕ, ◌+◌, ◌-◌, ◌≤◌, ◌≡◌, true, List, [], ◌∷◌, arith, leb, max, length, All, Bool-cases, inl, inr,
}
use dnss_cpp.Tuner.{Reading, Tuner, min_conns, min_threads}
use dnss_cpp.Tuner.Anomaly.{
  probe, evaluate_gap, track, track_states, is_idle, idle_recovery, check_queue, check_errors,
  check_hits, boost_ttl, detect, cool_down,
}
use dnss_cpp.Tuner.Cycle.{count_sample, observe, check, tune, tune_all}
use dnss_cpp.Tuner.Growth.{grow, tune_conns, tune_threads, tune_ttl}
use dnss_cpp.Tuner.Bounds.{IsTuned, tune-IsTuned, tune_all-IsTuned}

-- The pool is empty, the latency is under 50 ms and the error rate under 1%.
abbrev pub IsQuiet : Reading → Type 0
IsQuiet r = (r.load ≡ 0) × (r.lat.under 50 ≡ true) × (r.err.under 1 ≡ true)

-- One connection and one thread fewer than `t` has, down to the minimum.
abbrev Sheds : Tuner → Tuner → Type 0
Sheds t u =
    (u.conn_count ≤ max (t.conn_count - 1) min_conns)
    × (u.thread_count ≤ max (t.thread_count - 1) min_threads)
    × (min_conns ≤ t.conn_count → min_conns ≤ u.conn_count)
    × (u.consecutive_low_load ≡ t.consecutive_low_load)

detect-Sheds :
    (now : ℕ) (r : Reading) (t : Tuner)
    → is_idle r t ≡ true
    → (min_conns ≤ t.conn_count) × (min_threads ≤ t.thread_count)
    → Sheds t (detect now r t).1
unfolding detect idle_recovery check_queue check_errors check_hits boost_ttl
detect-Sheds now r t i h = ground (arith, i)

grow_same :
    (now : ℕ) (r : Reading) (t : Tuner)
    → (grow now r t).consecutive_low_load ≡ t.consecutive_low_load
unfolding grow tune_conns tune_threads tune_ttl
grow_same now r t = ground arith

detect_same :
    (now : ℕ) (r : Reading) (t : Tuner)
    → (detect now r t).1.consecutive_low_load ≡ t.consecutive_low_load
unfolding detect idle_recovery check_queue check_errors check_hits boost_ttl
detect_same now r t = ground arith

observe_quiet :
    (r : Reading) (t : Tuner)
    → IsQuiet r
    → ((observe r t).consecutive_low_load ≡ t.consecutive_low_load + 1)
      × ((observe r t).conn_count ≡ t.conn_count)
      × ((observe r t).thread_count ≡ t.thread_count)
unfolding observe probe evaluate_gap track_states track
observe_quiet r t (a, b, c) = ground (arith, b, c)

check_quiet :
    (now : ℕ) (r : Reading) (t : Tuner)
    → IsTuned t
    → IsQuiet r
    → ((check now r t).1.consecutive_low_load ≡ t.consecutive_low_load + 1)
      × (7 ≤ t.consecutive_low_load
          → ((check now r t).0 ≡ true)
            × ((check now r t).1.conn_count ≤ max (t.conn_count - 1) min_conns)
            × ((check now r t).1.thread_count ≤ max (t.thread_count - 1) min_threads))
unfolding check cool_down is_idle
check_quiet now r t h (a, b, c) = ground (
  arith,
  a,
  observe_quiet r t (a, b, c),
  detect_same now r (observe r t),
  detect-Sheds now r (observe r t),
)

-- A quiet cycle is counted, and from the eighth on it sheds a connection and a thread.
tune_quiet :
    (now : ℕ) (r : Reading) (t : Tuner)
    → IsTuned t
    → IsQuiet r
    → ((tune now r t).consecutive_low_load ≡ t.consecutive_low_load + 1)
      × (7 ≤ t.consecutive_low_load
          → ((tune now r t).conn_count ≤ max (t.conn_count - 1) min_conns)
            × ((tune now r t).thread_count ≤ max (t.thread_count - 1) min_threads))
unfolding tune count_sample
tune_quiet now r t h q = ground (arith, check_quiet now r t h q, grow_same now r (check now r t).1)

abbrev pub IsQuietCycle : ℕ × Reading → Type 0
IsQuietCycle (now, r) = IsQuiet r

shed :
    (cycles : List (ℕ × Reading)) (t : Tuner) (n : ℕ)
    → IsTuned t
    → All IsQuietCycle cycles
    → 7 ≤ t.consecutive_low_load
    → (t.conn_count ≤ min_conns + n) × (t.thread_count ≤ min_threads + n)
    → ((tune_all cycles t).conn_count ≤ min_conns + (n - length cycles))
      × ((tune_all cycles t).thread_count ≤ min_threads + (n - length cycles))
unfolding tune_all
shed [] t n h q low b = ground arith
shed ((now, r) ∷ cycles) t n h (q, qs) low b =
    ground (
      arith,
      tune_quiet now r t h q,
      shed cycles (tune now r t) (n - 1) (tune-IsTuned now r t h) qs,
    )

settle :
    (cycles : List (ℕ × Reading)) (t : Tuner)
    → IsTuned t
    → All IsQuietCycle cycles
    → (24 ≤ length cycles) × (31 ≤ t.consecutive_low_load + length cycles)
    → ((tune_all cycles t).conn_count ≤ min_conns)
      × ((tune_all cycles t).thread_count ≤ min_threads)
unfolding tune_all
settle [] t h qs k = ground arith
settle ((now, r) ∷ cycles) t h (q, qs) k = elim (Bool-cases (leb 7 t.consecutive_low_load)) [
  | inl low ↦ ground (arith, low, k, shed ((now, r) ∷ cycles) t 24 h (q, qs))
  | inr early ↦ ground (
    arith,
    early,
    tune_quiet now r t h q,
    settle cycles (tune now r t) (tune-IsTuned now r t h) qs,
  )
]

-- From any state with the ranges kept, 31 cycles or more in which nothing is asked of the server (no
-- pending task, latency under 50 ms, errors under 1%) bring the tuner to exactly 24 connections and 16
-- threads.
pub tune_all-settles :
    (cycles : List (ℕ × Reading)) (t : Tuner)
    → IsTuned t
    → All IsQuietCycle cycles
    → 31 ≤ length cycles
    → ((tune_all cycles t).conn_count ≡ min_conns)
      × ((tune_all cycles t).thread_count ≡ min_threads)
tune_all-settles cycles t h qs k = ground (arith, settle cycles t h qs, tune_all-IsTuned cycles t h)
