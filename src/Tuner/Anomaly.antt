-- ===== src/Tuner/Anomaly.antt =====
-- The first half of `AutoTuner::tune`: the urgency, the counters of consecutive states, and the checks
-- for an idle pool and for anomalies, which cut before anything may grow.
use dnss_cpp.Common.{
  ℕ, ◌+◌, ◌-◌, min, max, Bool, true, false, not, ◌&&◌, ◌||◌, ltb, leb, ◌==◌, if◌then◌else◌,
}
use dnss_cpp.Latency
use dnss_cpp.Tuner.{Reading, Tuner, min_conns, min_threads}

-- What LatencyManager reads of the same snapshot.
unfoldable pub gap_reading : Reading → Latency.Reading
gap_reading r = record (r.gap) { few_hits = r.hit.under 50; thread_pool_load = r.load }

-- Whether idle connections are probed in this cycle: `evaluate` has run.
unfoldable pub probes : Tuner → Bool
probes t = leb 2 (t.latency).urgency && (ltb t.prev_urgency 2 || (t.probe_cooldown == 0))

unfoldable pub probe : Tuner → Bool × Tuner
probe t =
    let p = probes t in
    (
      p,
      record t {
        probe_cooldown = (if p then 3 else t.probe_cooldown) - 1;
        prev_urgency = (t.latency).urgency;
      },
    )

unfoldable pub evaluate_gap : Reading → Tuner → Tuner
evaluate_gap r t = record t { latency = Latency.evaluate (gap_reading r) t.latency }

-- `if (test) n++; else n = std::max(0, n - 1);`
unfoldable pub track : Bool → ℕ → ℕ
track test n = if test then n + 1 else n - 1

unfoldable pub track_states : Reading → Tuner → Tuner
track_states r t = record t {
  consecutive_high_lat = track (r.lat.over 200) t.consecutive_high_lat;
  consecutive_high_err = track (r.err.over 5) t.consecutive_high_err;
  consecutive_low_load = track (r.lat.under 50 && r.err.under 1) t.consecutive_low_load;
}

unfoldable pub is_idle : Reading → Tuner → Bool
is_idle r t = (r.load == 0) && leb 8 t.consecutive_low_load

-- The second component of the checks says whether there was an anomaly.
unfoldable pub idle_recovery : Reading → Tuner → Tuner
idle_recovery r t =
    if is_idle r t
    then record t {
      conn_count = max (t.conn_count - 1) min_conns;
      thread_count = max (t.thread_count - 1) min_threads;
    }
    else t

unfoldable pub check_queue : Reading → Tuner → Bool × Tuner
check_queue r t =
    if ltb 200 r.load && leb 3 t.consecutive_high_lat
    then (
      true,
      record t {
        thread_count = max (t.thread_count - 2) min_threads;
        conn_count = max (t.conn_count - 2) min_conns;
        min_ttl = min (t.min_ttl + 120) 1200;
        negative_ttl = min (t.negative_ttl + 120) 600;
        consecutive_high_lat = 0;
        consecutive_high_err = 0;
      },
    )
    else (false, t)

unfoldable pub check_errors : ℕ → Reading → Bool × Tuner → Bool × Tuner
check_errors now r (anomaly, t) =
    if r.err.over 3 && leb 2 t.consecutive_high_err
    then (
      true,
      record t {
        conn_count = max (t.conn_count - 1) min_conns;
        last_conn_change = now;
        consecutive_high_err = 0;
      },
    )
    else (anomaly, t)

unfoldable pub check_hits : Reading → Bool × Tuner → Bool × Tuner
check_hits r (anomaly, t) =
    if r.hit.under 50 && ltb 60 t.samples_collected
    then (
      true,
      record t {
        min_ttl = min (t.min_ttl + 300) 7200;
        negative_ttl = min (t.negative_ttl + 120) 3600;
      },
    )
    else (anomaly, t)

unfoldable pub boost_ttl : Reading → Bool × Tuner → Bool × Tuner
boost_ttl r (anomaly, t) =
    if not anomaly
      && r.hit.under 70
      && r.lat.over 150
      && ltb 30 t.samples_collected
      && ltb t.min_ttl 3600
    then (
      anomaly,
      record t {
        min_ttl = min (t.min_ttl + r.boost) 7200;
        negative_ttl = min (t.negative_ttl + 60) 3600;
      },
    )
    else (anomaly, t)

-- All checks, in the order of the code.
unfoldable pub detect : ℕ → Reading → Tuner → Bool × Tuner
detect now r t = boost_ttl r (check_hits r (check_errors now r (check_queue r (idle_recovery r t))))

-- Whether the cycle stops here, and the state with the cooldown counted.
unfoldable pub cool_down : ℕ → Bool → Bool × Tuner → Bool × Tuner
cool_down now idle (anomaly, t) =
    if anomaly
    then (true, record t { anomaly_cooldown = 6; last_conn_change = now })
    else if ltb 0 t.anomaly_cooldown
    then (idle || ltb 1 t.anomaly_cooldown, record t { anomaly_cooldown = t.anomaly_cooldown - 1 })
    else (idle, t)
