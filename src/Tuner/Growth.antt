-- ===== src/Tuner/Growth.antt =====
-- The second half of `AutoTuner::tune`, which a cycle with nothing to cut goes on to: connections,
-- fan-out, threads, the refresh threshold and the TTLs.
use dnss_cpp.Common.{
  ℕ, ◌+◌, ◌-◌, ◌/◌, min, max, Bool, true, false, not, ◌&&◌, ◌||◌, ltb, leb, ◌==◌, if◌then◌else◌,
}
use dnss_cpp.Latency.{conn_boost, thread_boost, cache_refresh_boost, force_fan_out}
use dnss_cpp.Tuner.{Reading, Tuner, min_conns, max_conns, min_threads, max_threads, holdoff}

unfoldable pub in_turbo : Tuner → Bool
in_turbo t = leb 2 t.turbo_cycles

unfoldable pub is_saturated : Reading → Tuner → Bool
is_saturated r t = r.lat.over 1000 && r.util.under 70 && ltb min_conns t.conn_count

-- `newConn` in turbo mode.
unfoldable pub turbo_conns : Reading → ℕ → ℕ
turbo_conns r cur =
    if ltb 50 r.load && ltb 0 (min 4 (max_conns - cur)) then cur + min 4 (max_conns - cur) else cur

-- `newConn` after the reductions.
unfoldable pub shrunk_conns : Reading → Tuner → ℕ
shrunk_conns r t =
    if is_saturated r t
    then max (t.conn_count - 1) min_conns
    else if leb 3 t.consecutive_low_load && ltb min_conns t.conn_count
    then t.conn_count - 1
    else t.conn_count

-- `newConn` after the chain of reasons to grow: each starts again from the current count.
unfoldable pub grown_conns : Reading → Tuner → ℕ → ℕ
grown_conns r t new =
    let cur = t.conn_count in
    let room = ltb cur max_conns in
    let growth = if r.util.over 95 then 3 else 2 in
    if r.util.over 90 && r.lat.over 200 && room
    then min (cur + growth) max_conns
    else if r.util.over 70 && r.trend.over 3 && r.qps.over 5 && room
    then min (cur + 2) max_conns
    else if r.util.over 85 && r.qps.over 5 && room
    then min (cur + growth) max_conns
    else if r.err.over 2 || leb 2 t.consecutive_high_err
    then min (cur + 2) max_conns
    else if r.lat.over 200 && r.qps.over 5 && room
    then min (cur + 1) max_conns
    else if r.trend.over 5 && room
    then min (cur + 1) max_conns
    else new

unfoldable pub wanted_conns : Reading → Tuner → ℕ
wanted_conns r t =
    if in_turbo t
    then turbo_conns r t.conn_count
    else if is_saturated r t
    then shrunk_conns r t
    else grown_conns r t (shrunk_conns r t)

unfoldable pub boosted_conns : Reading → Tuner → ℕ → ℕ
boosted_conns r t new =
    if ltb 0 (t.latency).urgency && not (is_saturated r t) && ltb new max_conns
    then max new (min (new + conn_boost t.latency) max_conns)
    else new

unfoldable pub tune_conns : ℕ → Reading → Tuner → Tuner
tune_conns now r t =
    let wanted = boosted_conns r t (wanted_conns r t) in
    let new =
      if ltb t.conn_count wanted && ltb now (t.last_conn_change + holdoff)
      then t.conn_count
      else wanted in
    record t {
      conn_count = new;
      last_conn_change = if new == t.conn_count then t.last_conn_change else now;
    }

unfoldable pub tune_fan_out : Reading → Tuner → Bool
tune_fan_out r t =
    let force = force_fan_out t.latency in
    if ltb t.samples_collected 12
      || force
      || r.err.over 3
      || r.p95.over 120
      || r.lat.over 300
      || (r.variance.over 50 && leb 2 t.consecutive_high_lat)
    then true
    else if not force
        && ltb 24 t.samples_collected
        && r.err.under 1
        && r.p95.under 60
        && r.variance.under 20
    then false
    else t.fan_out

-- The turbo counter and `newThreads` after it.
unfoldable pub turbo_threads : Reading → Tuner → ℕ × ℕ
turbo_threads r t =
    let cycles = min (t.turbo_cycles + 1) 10 in
    let growth = min 8 (max_threads - t.thread_count) in
    if not (ltb 50 r.load)
    then (t.turbo_cycles - 1, t.thread_count)
    else if ltb cycles 2
    then (cycles, t.thread_count)
    else if ltb 0 growth
    then (cycles, t.thread_count + growth)
    else (min cycles 5, t.thread_count)

unfoldable pub grown_threads : Reading → ℕ → ℕ → ℕ
grown_threads r cur new =
    let room = ltb cur max_threads in
    if r.util.over 50 && r.trend.over 3 && room
    then min (cur + 1) max_threads
    else if r.util.over 80 && r.lat.over 200 && room
    then min (cur + 2) max_threads
    else if ltb 3 r.load && r.lat.over 100 && room
    then min (cur + 2) max_threads
    else if ltb 5 r.load && room
    then min (cur + 1) max_threads
    else new

-- `conns` is `curConn`, the count before the connections were tuned.
unfoldable pub shrunk_threads : Reading → Tuner → ℕ → ℕ → ℕ
shrunk_threads r t conns new =
    let cur = t.thread_count in
    if ltb (conns + conns / 5) cur && ltb min_threads cur
    then max (conns + conns / 5) min_threads
    else if r.util.under 70
    then (if (r.load == 0) && leb 8 t.consecutive_low_load && ltb min_threads cur
        then cur - 1
        else if ltb r.load 3 && leb 12 t.consecutive_low_load && ltb min_threads cur
        then cur - 1
        else new)
    else new

unfoldable pub boosted_threads : Tuner → ℕ → ℕ
boosted_threads t new =
    if ltb 0 (t.latency).urgency && ltb new max_threads
    then max new (min (new + thread_boost t.latency) max_threads)
    else new

unfoldable pub tune_threads : Reading → ℕ → Tuner → Tuner
tune_threads r conns t =
    let (cycles, turbo) = turbo_threads r t in
    let new =
      if leb 2 cycles
      then turbo
      else boosted_threads t (shrunk_threads r t conns (grown_threads r t.thread_count turbo)) in
    record t { turbo_cycles = cycles; thread_count = min (max new min_threads) max_threads }

unfoldable pub tune_refresh : Reading → Tuner → ℕ
tune_refresh r t =
    let cur = t.refresh_pct in
    if ltb t.samples_collected 12
    then 15
    else if ltb 0 (t.latency).urgency && ltb cur 50
    then min (cur + cache_refresh_boost t.latency) 10
    else if r.hit.under 30 && ltb cur 30
    then min (cur + 5) 10
    else if r.hit.over 80 && ltb 5 cur
    then max (cur - 2) 5
    else cur

-- Both tests read `curMin`, and the second write is the last one.
unfoldable pub tune_ttl : Reading → Tuner → Tuner
tune_ttl r t =
    let slow = r.lat.over 80 && r.hit.under 92 && ltb t.min_ttl 900 in
    let fast = r.lat.under 40 && r.hit.over 95 && ltb 300 t.min_ttl in
    if ltb 12 t.samples_collected
    then record t {
      min_ttl = if fast then t.min_ttl - 60 else if slow then t.min_ttl + 60 else t.min_ttl;
      negative_ttl = if slow then min (t.negative_ttl + 60) 600 else t.negative_ttl;
    }
    else t

-- Everything after the cut, in the order of the code.
unfoldable pub grow : ℕ → Reading → Tuner → Tuner
grow now r t =
    let conns = tune_conns now r t in
    let fan = record conns { fan_out = tune_fan_out r conns } in
    let threads = tune_threads r t.conn_count fan in
    tune_ttl r (record threads { refresh_pct = tune_refresh r threads })
