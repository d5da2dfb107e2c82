-- ===== src/Connections/Reach.antt =====
-- The calls, the steps of the workers and the parts of the rounds of maintenance, in any order. The
-- mutex makes each of them one step; a round gives it back between its scan, its checks and each work
-- that it queues. A stream that comes to be managed is new: no entry and no work has it. A check may
-- fail at any index and for any stream, at any time, in a round of maintenance or of probes. The
-- function to open connections is set before the workers start.
use dnss_cpp.Common.{ℕ, ◌+◌, ◌≡◌, true, Bool, List, [], ◌∷◌, ◌++◌}
use dnss_cpp.Http.Url.{Address}
use dnss_cpp.Connections.{
  Work, Controller, create, manage, unmanage, notify_used, notify_failure, fail_check, take_work,
  finish_work,
}
use dnss_cpp.Connections.Rounds.{indices_down, scan_down, push_work}
use dnss_cpp.Connections.Entries.{IsFresh, count_work}
use dnss_cpp.Connections.Invariant.{Holds}
use dnss_cpp.Connections.Owed.{Owes, keys}

-- A call, or a step of a worker, which the round of maintenance takes no notice of.
pub data Step (c : Controller) : Controller → Type 0 where
  used : (now s : ℕ) → Step c (notify_used now s c)
  broke : (s : ℕ) → Step c (notify_failure s c)
  checked : (idx s : ℕ) → Step c (fail_check (idx, s) c)
  taken : Step c (take_work true c)
  finished :
      (now : ℕ) (opened : Bool) (w : Work) (before after : List Work)
      → c.in_flight ≡ before ++ (w ∷ after)
      → Step c (finish_work now opened w (before ++ after) c)

-- The controller, and the indices for which the round under way has to queue work.
abbrev pub State : Type 0
State = Controller × List ℕ

-- No work for a stream is queued or in flight, and none is owed to it.
abbrev pub IsNew : ℕ → Controller → Type 0
IsNew s c = IsFresh s c.managed × (count_work s c.reconnect_queue + count_work s c.in_flight ≡ 0)

-- A connection is unmanaged only while no index waits.
pub data Reaches : State → Type 0 where
  start : Reaches (create, [])
  step : (c d : Controller) (is : List ℕ) → Reaches (c, is) → Step c d → Reaches (d, is)
  managed :
      (c : Controller) (is : List ℕ) (now : ℕ) (address : Address) (s : ℕ) (connected : Bool)
      → Reaches (c, is)
      → IsNew s c
      → Reaches (manage now address s connected c, is)
  unmanaged : (c : Controller) (s : ℕ) → Reaches (c, []) → Reaches (unmanage s c, [])
  scanned : (c : Controller) → Reaches (c, []) → Reaches (scan_down c, indices_down 0 c.managed)
  pushed :
      (c : Controller) (i : ℕ) (is : List ℕ) → Reaches (c, i ∷ is) → Reaches (push_work i c, is)

-- The work that waits at the indices, together with that which is queued or in flight, is right.
abbrev pub Consistent : State → Type 0
Consistent (c, is) = (owed : List Work) × Owes (keys c) is owed × Holds owed c
