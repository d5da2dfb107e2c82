-- ===== src/Server/ThreadPool/Bounds.antt =====
-- The bounds of the pool in every state that it reaches.
use dnss_cpp.Common.{ℕ, ◌≤◌, ◌≡◌, ap, false, [], ◌∷◌, arith, length, length-append}
use dnss_cpp.Server.ThreadPool.{
  Pool, min_workers, max_workers, create, try_enqueue, clamp_workers, store_target, spawn_workers,
  shutdown, maybe_shrink, take_task, finish_task, leave, Step, offered, stored, spawned, stopping,
  taken, finished, shrunk, left, Reaches, here, then_step,
}

clamp_workers-within : (n : ℕ) → (min_workers ≤ clamp_workers n) × (clamp_workers n ≤ max_workers)
unfolding clamp_workers
clamp_workers-within n = ground arith

module _ {Task : Type 0} where
  -- The queue is within its limit, busy workers are live, the target and the live workers are within
  -- their bounds, and as long as the pool has not stopped, at least four workers are live.
  abbrev pub IsBounded : Pool Task → Type 0
  IsBounded p =
      (length p.tasks ≤ p.backpressure_limit)
      × (p.busy ≤ p.live_count)
      × (p.live_count ≤ max_workers)
      × (min_workers ≤ p.target)
      × (p.target ≤ max_workers)
      × (p.stopped ≡ false → min_workers ≤ p.live_count)

  pub Step-IsBounded : (p q : Pool Task) → IsBounded p → Step p q → IsBounded q
  unfolding try_enqueue store_target spawn_workers shutdown take_task finish_task leave maybe_shrink
  Step-IsBounded p q (a, b, c, d, e, l) (offered f) =
      ground (arith, a, b, c, d, e, l, length-append p.tasks (f ∷ []))
  Step-IsBounded p q (a, b, c, d, e, l) (stored n) =
      let (x, y) = clamp_workers-within n in ground (arith, a, b, c, d, e, l, x, y)
  Step-IsBounded p q (a, b, c, d, e, l) (spawned n) =
      let (x, y) = clamp_workers-within n in ground (arith, a, b, c, d, e, l, x, y)
  Step-IsBounded p q (a, b, c, d, e, l) stopping = (a, b, c, d, e, (λ s. absurd (ground arith)))
  Step-IsBounded p q (a, b, c, d, e, l) (taken f rest t h) =
      ground (arith, a, b, c, d, e, l, ap length t)
  Step-IsBounded p q (a, b, c, d, e, l) (finished h) = ground (arith, a, b, c, d, e, l)
  Step-IsBounded p q (a, b, c, d, e, l) (shrunk t m h) = ground (arith, a, b, c, d, e, l, m, h)
  Step-IsBounded p q (a, b, c, d, e, l) (left s t h) = ground (arith, a, b, c, d, e, l, s, h)

  -- In every state that a pool reaches which starts with 4 to 64 workers, the queue is within its
  -- limit, no more workers are busy than live, at most 64 are live, the target is 4 to 64, and as long
  -- as the pool has not stopped, at least 4 workers are live, though others may store another target
  -- between the moment a worker reads it and the moment it leaves.
  pub Reaches-IsBounded :
      (n limit : ℕ) (p : Pool Task)
      → min_workers ≤ n
      → n ≤ max_workers
      → Reaches (create n limit) p
      → IsBounded p
  unfolding create
  Reaches-IsBounded n limit p h k here = (omega arith, omega arith, k, h, k, (λ s. omega arith))
  Reaches-IsBounded n limit p h k (then_step {q = q} r s) =
      Step-IsBounded q p (Reaches-IsBounded n limit q h k r) s
