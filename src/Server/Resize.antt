-- ===== src/Server/Resize.antt =====
-- `perfMonitorLoop` of dns_server.cpp: every two seconds the pool follows the tuner.
use dnss_cpp.Common.{ℕ, ◌≤◌, ◌≡◌, ◌≢◌, ◌==◌, List, arith, if◌then◌else◌}
use dnss_cpp.Tuner.{Reading, Tuner}
use dnss_cpp.Tuner.Cycle.{tune_all}
use dnss_cpp.Tuner.Bounds.{IsTuned, tune_all-IsTuned}
use dnss_cpp.Server.ThreadPool.{
  Pool, resize, store_target, spawn_workers, clamp_workers, stored, spawned,
}
use dnss_cpp.Server.ThreadPool.Bounds.{IsBounded, Step-IsBounded}

-- `recommendedThreads`, the count of the tuner, is `rec`.
unfoldable pub perf_monitor_round : {Task : Type 0} → ℕ → Pool Task → Pool Task
perf_monitor_round rec p = if rec == p.live_count then p else resize rec p

module _ {Task : Type 0} where
  follows :
      (rec : ℕ) (p : Pool Task)
      → (16 ≤ rec) × (rec ≤ 32)
      → IsBounded p
      → IsBounded (perf_monitor_round rec p)
        × (rec ≤ (perf_monitor_round rec p).live_count)
        × (rec ≢ p.live_count → (perf_monitor_round rec p).target ≡ rec)
  unfolding perf_monitor_round resize store_target spawn_workers clamp_workers
  follows rec p h b =
      let kept = Step-IsBounded p (store_target rec p) b (stored rec) in
      ground (arith, Step-IsBounded (store_target rec p) (resize rec p) kept (spawned rec))

  -- After any cycles of the tuner, a round of the monitor keeps the bounds of the pool and leaves at
  -- least as many live workers as the tuner recommends. Where that is not the number of live workers,
  -- it becomes the pool's target, unclamped.
  pub perf_monitor_round-follows :
      (cycles : List (ℕ × Reading)) (t : Tuner) (p : Pool Task)
      → IsTuned t
      → IsBounded p
      → let rec = (tune_all cycles t).thread_count in
        let q = perf_monitor_round rec p in
        IsBounded q × (rec ≤ q.live_count) × (rec ≢ p.live_count → q.target ≡ rec)
  perf_monitor_round-follows cycles t p h b =
      follows (tune_all cycles t).thread_count p (tune_all-IsTuned cycles t h).1 b
