-- ===== src/Connections/Rounds.antt =====
-- `run` and `probeAllIdle` of connection_controller.cpp: a round of maintenance, in its parts and as a
-- whole, and a round of probes. `healthy` is what the health check of a stream says.
use dnss_cpp.Common.{
  none, some, get_elem?, ℕ, ◌+◌, ◌*◌, Bool, true, not, ◌&&◌, List, [], ◌∷◌, ◌++◌, leb,
  if◌then◌else◌,
}
use dnss_cpp.Cache.{second}
use dnss_cpp.Connections.{Managed, Controller, work_of, fail_check}

abbrev pub idle_limit : ℕ
idle_limit = 3 * second

-- `IDLE_CHECK_INTERVAL`
abbrev pub check_interval : ℕ
check_interval = 12 * second

unfoldable pub is_due : ℕ → Managed → Bool
is_due now m =
    m.connected
    && not m.reconnect_pending
    && leb (m.last_use + idle_limit) now
    && leb (m.last_check + check_interval) now

unfoldable pub is_probed : ℕ → Managed → Bool
is_probed now m = m.connected && not m.reconnect_pending && leb (m.last_use + idle_limit) now

unfoldable pub is_down : Managed → Bool
is_down m = not m.connected && not m.reconnect_pending

-- The entries to check, by index and stream, from an index on.
unfoldable pub select : (Managed → Bool) → ℕ → List Managed → List (ℕ × ℕ)
select test i [] = []
select test i (m ∷ ms) =
    let later = select test (i + 1) ms in if test m then (i, m.stream) ∷ later else later

unfoldable pub mark_down : List Managed → List Managed
mark_down [] = []
mark_down (m ∷ ms) = (if is_down m then record m { reconnect_pending = true } else m) ∷ mark_down ms

-- `reconnects`: the indices of the entries that were marked, from an index on.
unfoldable pub indices_down : ℕ → List Managed → List ℕ
indices_down i [] = []
indices_down i (m ∷ ms) =
    let later = indices_down (i + 1) ms in if is_down m then i ∷ later else later

-- The first part of a round, under the mutex: the marks. The checks and the indices come from it too.
unfoldable pub scan_down : Controller → Controller
scan_down c = record c { managed = mark_down c.managed }

-- The last part, under the mutex for each index: work for the entry that is there then.
unfoldable pub push_work : ℕ → Controller → Controller
push_work idx c = elim (get_elem? c.managed idx) [
  | none ↦ c
  | some m ↦ record c { reconnect_queue = c.reconnect_queue ++ (work_of m ∷ []) }
]

unfoldable pub push_works : List ℕ → Controller → Controller
push_works [] c = c
push_works (idx ∷ idxs) c = push_works idxs (push_work idx c)

unfoldable pub fail_checks : (ℕ → Bool) → List (ℕ × ℕ) → Controller → Controller
fail_checks healthy [] c = c
fail_checks healthy ((idx, s) ∷ checks) c =
    fail_checks healthy checks (if healthy s then c else fail_check (idx, s) c)

unfoldable pub probe_all_idle : ℕ → (ℕ → Bool) → Controller → Controller
probe_all_idle now healthy c = fail_checks healthy (select (is_probed now) 0 c.managed) c

-- The scan, the checks, and the work for the connections that were down, with nothing in between.
unfoldable pub run_round : ℕ → (ℕ → Bool) → Controller → Controller
run_round now healthy c =
    let checks = select (is_due now) 0 c.managed in
    push_works (indices_down 0 c.managed) (fail_checks healthy checks (scan_down c))
