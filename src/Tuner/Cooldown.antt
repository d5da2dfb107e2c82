-- ===== src/Tuner/Cooldown.antt =====
-- What a cycle of the tuner does to the two counts: it cuts first, and then it may grow only if
-- nothing was cut.
use dnss_cpp.Common.{
  ℕ, ◌+◌, ◌≤◌, ◌<◌, ◌≡◌, refl, ◌⊎◌, Bool, true, false, List, [], ◌∷◌, arith, length,
}
use dnss_cpp.Tuner.{Reading, Tuner, min_conns, min_threads, holdoff}
use dnss_cpp.Tuner.Anomaly.{
  probe, evaluate_gap, track_states, is_idle, idle_recovery, check_queue, check_errors, check_hits,
  boost_ttl, detect, cool_down,
}
use dnss_cpp.Tuner.Growth.{tune_conns, tune_threads, tune_ttl, grow}
use dnss_cpp.Tuner.Cycle.{count_sample, observe, check, tune, tune_all}
use dnss_cpp.Tuner.Bounds.{IsTuned, tune-IsTuned}

-- What the checks have done since `t`, which has these counts at least.
abbrev pub Cuts : ℕ → Tuner → Bool × Tuner → Type 0
Cuts now t (a, u) =
    (u.conn_count ≤ t.conn_count)
    × (u.thread_count ≤ t.thread_count)
    × (u.anomaly_cooldown ≡ t.anomaly_cooldown)
    × ((u.last_conn_change ≡ t.last_conn_change) ⊎ (u.last_conn_change ≡ now))
    × (a ≡ false → (u.conn_count ≡ t.conn_count) × (u.last_conn_change ≡ t.last_conn_change))

abbrev HasMinimum : Tuner → Type 0
HasMinimum t = (min_conns ≤ t.conn_count) × (min_threads ≤ t.thread_count)

check_queue-Cuts : (now : ℕ) (r : Reading) (t : Tuner) → HasMinimum t → Cuts now t (check_queue r t)
unfolding check_queue
check_queue-Cuts now r t h = ground arith

check_queue-HasMinimum : (r : Reading) (t : Tuner) → HasMinimum t → HasMinimum (check_queue r t).1
unfolding check_queue
check_queue-HasMinimum r t h = ground arith

check_errors-Cuts :
    (now : ℕ) (r : Reading) (t : Tuner) (c : Bool × Tuner)
    → HasMinimum c.1
    → Cuts now t c
    → Cuts now t (check_errors now r c)
unfolding check_errors
check_errors-Cuts now r t (a, u) h k = ground arith

check_hits-Cuts :
    (now : ℕ) (r : Reading) (t : Tuner) (c : Bool × Tuner)
    → Cuts now t c
    → Cuts now t (check_hits r c)
unfolding check_hits
check_hits-Cuts now r t (a, u) k = ground arith

boost_ttl-Cuts :
    (now : ℕ) (r : Reading) (t : Tuner) (c : Bool × Tuner)
    → Cuts now t c
    → Cuts now t (boost_ttl r c)
unfolding boost_ttl
boost_ttl-Cuts now r t (a, u) k = ground arith

detect-Cuts :
    (now : ℕ) (r : Reading) (t : Tuner)
    → HasMinimum (idle_recovery r t)
    → Cuts now (idle_recovery r t) (detect now r t)
unfolding detect
detect-Cuts now r t h =
    let v = idle_recovery r t in
    boost_ttl-Cuts now r v _ (
      check_hits-Cuts now r v _
        (check_errors-Cuts now r v _ (check_queue-HasMinimum r v h) (check_queue-Cuts now r v h)))

idle_recovery-Cuts :
    (r : Reading) (t : Tuner)
    → HasMinimum t
    → HasMinimum (idle_recovery r t)
      × Cuts 0 t (is_idle r t, idle_recovery r t)
      × ((idle_recovery r t).last_conn_change ≡ t.last_conn_change)
unfolding idle_recovery
idle_recovery-Cuts r t h = ground arith

observe_same :
    (r : Reading) (t : Tuner)
    → ((observe r t).conn_count ≡ t.conn_count)
      × ((observe r t).thread_count ≡ t.thread_count)
      × ((observe r t).anomaly_cooldown ≡ t.anomaly_cooldown)
      × ((observe r t).last_conn_change ≡ t.last_conn_change)
unfolding observe probe evaluate_gap track_states
observe_same r t = (refl, refl, refl, refl)

-- What the first half of a cycle has done, and what it means that the cycle goes on.
abbrev pub Checks : ℕ → Tuner → Bool × Tuner → Type 0
Checks now t (skip, u) =
    (u.conn_count ≤ t.conn_count)
    × (u.thread_count ≤ t.thread_count)
    × ((u.last_conn_change ≡ t.last_conn_change) ⊎ (u.last_conn_change ≡ now))
    × (t.anomaly_cooldown ≤ u.anomaly_cooldown + 1)
    × (skip ≡ false
        → (u.conn_count ≡ t.conn_count)
          × (u.last_conn_change ≡ t.last_conn_change)
          × (t.anomaly_cooldown ≤ 1))

cool_down-Checks :
    (now : ℕ) (idle : Bool) (t : Tuner) (v : Tuner) (c : Bool × Tuner)
    → Cuts 0 t (idle, v)
    → (v.last_conn_change ≡ t.last_conn_change)
    → Cuts now v c
    → t.anomaly_cooldown ≤ 6
    → Checks now t (cool_down now idle c)
unfolding cool_down
cool_down-Checks now idle t v (a, u) h e k six = ground arith

check-Checks : (now : ℕ) (r : Reading) (t : Tuner) → IsTuned t → Checks now t (check now r t)
unfolding check observe probe evaluate_gap track_states
check-Checks now r t h =
    let seen = observe r t in
    let (low, cut, last) = idle_recovery-Cuts r seen (h.0.0, h.1.0) in
    cool_down-Checks now (is_idle r seen) seen (idle_recovery r seen) (detect now r seen) cut last
      (detect-Cuts now r seen low) h.4

-- How a cycle at `now` that began at `t` paces the connections.
abbrev pub Paces : ℕ → Tuner → Tuner → Type 0
Paces now t u =
    ((u.last_conn_change ≡ t.last_conn_change) ⊎ (u.last_conn_change ≡ now))
    × (t.conn_count < u.conn_count
        → (t.last_conn_change + holdoff ≤ now) × (u.last_conn_change ≡ now))

tune_conns-Paces : (now : ℕ) (r : Reading) (t : Tuner) → Paces now t (tune_conns now r t)
unfolding tune_conns
tune_conns-Paces now r t = ground arith

tune_ttl_same :
    (r : Reading) (t : Tuner)
    → ((tune_ttl r t).conn_count ≡ t.conn_count)
      × ((tune_ttl r t).last_conn_change ≡ t.last_conn_change)
      × ((tune_ttl r t).anomaly_cooldown ≡ t.anomaly_cooldown)
unfolding tune_ttl
tune_ttl_same r t = ground arith

grow_same :
    (now : ℕ) (r : Reading) (t : Tuner)
    → ((grow now r t).conn_count ≡ (tune_conns now r t).conn_count)
      × ((grow now r t).last_conn_change ≡ (tune_conns now r t).last_conn_change)
      × ((grow now r t).anomaly_cooldown ≡ t.anomaly_cooldown)
unfolding grow tune_threads tune_conns
grow_same now r t = tune_ttl_same r _

grow-Paces :
    (now : ℕ) (r : Reading) (t : Tuner)
    → Paces now t (grow now r t) × ((grow now r t).anomaly_cooldown ≡ t.anomaly_cooldown)
grow-Paces now r t = ground (arith, tune_conns-Paces now r t, grow_same now r t)

-- A cycle that begins with the ranges kept raises the connections only if 15 seconds have gone by since
-- the last change, which it then records, and the cooldown is at most 1; with a cooldown above 1 it
-- raises neither count. The cooldown falls by at most 1.
pub tune-Paces :
    (now : ℕ) (r : Reading) (t : Tuner)
    → IsTuned t
    → Paces now t (tune now r t)
      × (t.anomaly_cooldown ≤ (tune now r t).anomaly_cooldown + 1)
      × (1 < t.anomaly_cooldown
          → ((tune now r t).conn_count ≤ t.conn_count)
            × ((tune now r t).thread_count ≤ t.thread_count))
unfolding tune count_sample
tune-Paces now r t h = ground (arith, check-Checks now r t h, grow-Paces now r (check now r t).1)

-- Whether the checks of this cycle find an anomaly.
unfoldable pub is_anomaly : ℕ → Reading → Tuner → Bool
is_anomaly now r t = (detect now r (observe r t)).0

anomaly_cuts :
    (now : ℕ) (r : Reading) (t : Tuner)
    → IsTuned t
    → is_anomaly now r t ≡ true
    → ((tune now r t).anomaly_cooldown ≡ 6)
      × ((tune now r t).last_conn_change ≡ now)
      × ((tune now r t).conn_count ≤ t.conn_count)
      × ((tune now r t).thread_count ≤ t.thread_count)
unfolding is_anomaly tune count_sample check cool_down
anomaly_cuts now r t h a = ground (arith, a, check-Checks now r t h)

-- A run of fewer cycles than the cooldown.
frozen :
    (cycles : List (ℕ × Reading)) (t : Tuner)
    → IsTuned t
    → length cycles < t.anomaly_cooldown
    → ((tune_all cycles t).conn_count ≤ t.conn_count)
      × ((tune_all cycles t).thread_count ≤ t.thread_count)
unfolding tune_all
frozen [] t h k = ground arith
frozen ((now, r) ∷ cycles) t h k =
    let u = tune now r t in
    ground (arith, tune-Paces now r t h, frozen cycles u (tune-IsTuned now r t h))

-- A cycle that finds an anomaly, and any five cycles after it, end with no more connections and no more
-- threads than it began with, whatever is read.
pub anomaly-frozen :
    (now : ℕ) (r : Reading) (t : Tuner) (cycles : List (ℕ × Reading))
    → IsTuned t
    → is_anomaly now r t ≡ true
    → length cycles ≤ 5
    → ((tune_all cycles (tune now r t)).conn_count ≤ t.conn_count)
      × ((tune_all cycles (tune now r t)).thread_count ≤ t.thread_count)
anomaly-frozen now r t cycles h a k =
    ground (arith, anomaly_cuts now r t h a, frozen cycles (tune now r t) (tune-IsTuned now r t h))
