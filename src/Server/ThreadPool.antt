-- ===== src/Server/ThreadPool.antt =====
-- `ThreadPool` of dns_server.cpp. What a call does under the mutex is one step; `resize` stores the
-- target before, and a worker shrinks the pool without it, by a target that it has read. `busy` workers
-- run a task. Threads that cannot be started or joined are not modelled.
pub mod Bounds
use dnss_cpp.Common.{
  ℕ, suc, ◌+◌, ◌-◌, ◌≤◌, ◌<◌, ◌≡◌, Bool, true, false, ◌&&◌, List, [], ◌∷◌, ◌++◌, ltb, leb,
  if◌then◌else◌, length,
}

-- `tasks` are the queued tasks, `Task` being what a task is.
pub record Pool (Task : Type 0) : Type 0 where
  pub tasks : List Task
  pub busy : ℕ
  pub live_count : ℕ
  pub target : ℕ
  pub backpressure_limit : ℕ
  pub stopped : Bool

abbrev pub min_workers : ℕ
min_workers = 4

abbrev pub max_workers : ℕ
max_workers = 64

unfoldable pub clamp_workers : ℕ → ℕ
clamp_workers n =
    let below = if ltb max_workers n then max_workers else n in
    if ltb below min_workers then min_workers else below

module _ {Task : Type 0} where
  -- `ThreadPool(n, backpressureLimit)`
  unfoldable pub create : ℕ → ℕ → Pool Task
  create n limit = record {
    tasks = [];
    busy = 0;
    live_count = n;
    target = n;
    backpressure_limit = limit;
    stopped = false;
  }

  unfoldable pub enqueue : Task → Pool Task → Pool Task
  enqueue f p = record p { tasks = p.tasks ++ (f ∷ []) }

  unfoldable pub try_enqueue : Task → Pool Task → Bool × Pool Task
  try_enqueue f p =
      if leb p.backpressure_limit (length p.tasks)
      then (false, p)
      else (true, record p { tasks = p.tasks ++ (f ∷ []) })

  -- `resize` stores the target before it takes the mutex.
  unfoldable pub store_target : ℕ → Pool Task → Pool Task
  store_target n p = record p { target = clamp_workers n }

  -- `while (liveCount_.load() < n) spawnWorker();`
  unfoldable pub spawn_workers : ℕ → Pool Task → Pool Task
  spawn_workers n p =
      let m = clamp_workers n in
      record p { live_count = if ltb p.live_count m then m else p.live_count }

  -- The whole call, with nothing in between.
  unfoldable pub resize : ℕ → Pool Task → Pool Task
  resize n p = spawn_workers n (store_target n p)

  unfoldable pub shutdown : Pool Task → Pool Task
  shutdown p = record p { stopped = true }

  -- The worker that called it leaves if there are more than the target `t` that it has read, which may
  -- be an old one when `compare_exchange_weak` takes the count down.
  unfoldable pub maybe_shrink : ℕ → Pool Task → Bool × Pool Task
  maybe_shrink t p =
      if ltb t p.live_count then (true, record p { live_count = p.live_count - 1 }) else (false, p)

  -- `task = tasks_.front(); tasks_.pop();`
  unfoldable pub take_task : Task → List Task → Pool Task → Pool Task
  take_task f rest p = record p { tasks = rest; busy = p.busy + 1 }

  -- A task has ended; the worker is not busy any more, and may call `maybe_shrink` next.
  unfoldable pub finish_task : Pool Task → Pool Task
  finish_task p = record p { busy = p.busy - 1 }

  -- A worker with no task leaves when the pool has stopped.
  unfoldable pub leave : Pool Task → Pool Task
  leave p = record p { live_count = p.live_count - 1 }

  -- One step of the pool: a part of a call of the server, or of a worker that is free or busy.
  pub data Step (p : Pool Task) : Pool Task → Type 0 where
    offered : (f : Task) → Step p (try_enqueue f p).1
    stored : (n : ℕ) → Step p (store_target n p)
    spawned : (n : ℕ) → Step p (spawn_workers n p)
    stopping : Step p (shutdown p)
    taken :
        (f : Task) (rest : List Task)
        → p.tasks ≡ f ∷ rest
        → p.busy < p.live_count
        → Step p (take_task f rest p)
    finished : 0 < p.busy → Step p (finish_task p)
    shrunk : (t : ℕ) → min_workers ≤ t → p.busy < p.live_count → Step p (maybe_shrink t p).1
    left : p.stopped ≡ true → p.tasks ≡ [] → p.busy < p.live_count → Step p (leave p)

  pub data Reaches (p : Pool Task) : Pool Task → Type 0 where
    here : Reaches p p
    then_step : {q r : Pool Task} → Reaches p q → Step q r → Reaches p r
