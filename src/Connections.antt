-- ===== src/Connections.antt =====
-- connection_controller.hpp and connection_controller.cpp: the connections that are kept open, and the
-- work of reconnecting them. A connection is told by its stream, a pointer, here a number. The flag
-- `connected` belongs to the connection's owner, and is written by the controller as long as it is
-- managed. Time is in nanoseconds. `in_flight` is the work that the workers have taken.
pub mod Rounds
pub mod Entries
pub mod Invariant
pub mod Steps
pub mod Workers
pub mod Calls
pub mod Checks
pub mod Owed
pub mod Reach
pub mod Runs
use dnss_cpp.Common.{
  ℕ, suc, ◌+◌, ◌-◌, ◌*◌, ◌^◌, min, Bool, true, false, not, ◌&&◌, ◌||◌, Option, none, some, List, [],
  ◌∷◌, ◌++◌, ltb, leb, ◌==◌, if◌then◌else◌, length, get_elem?,
}
use dnss_cpp.Cache.{millisecond, second}
use dnss_cpp.Http.Url.{Address}

pub record Managed : Type 0 where
  pub address : Address
  pub stream : ℕ
  pub connected : Bool
  pub last_use : ℕ
  pub last_check : ℕ
  pub failures : ℕ
  pub reconnect_pending : Bool

pub record Work : Type 0 where
  pub stream : ℕ
  pub address : Address
  pub retries : ℕ

pub record Controller : Type 0 where
  pub managed : List Managed
  pub reconnect_queue : List Work
  pub in_flight : List Work
  pub connected_count : ℕ
  pub total_count : ℕ

abbrev pub create : Controller
create = record {
  managed = [];
  reconnect_queue = [];
  in_flight = [];
  connected_count = 0;
  total_count = 0;
}

abbrev pub bit : Bool → ℕ
bit true = 1
bit false = 0

unfoldable pub find_entry : ℕ → List Managed → Option Managed
find_entry s [] = none
find_entry s (m ∷ ms) = let later = find_entry s ms in if m.stream == s then some m else later

-- A write to the entry of a stream.
unfoldable pub replace : ℕ → Managed → List Managed → List Managed
replace s new [] = []
replace s new (m ∷ ms) =
    let later = replace s new ms in if m.stream == s then new ∷ ms else m ∷ later

unfoldable pub erase : ℕ → List Managed → List Managed
erase s [] = []
erase s (m ∷ ms) = let later = erase s ms in if m.stream == s then ms else m ∷ later

unfoldable pub cancel : ℕ → List Work → List Work
cancel s [] = []
cancel s (w ∷ ws) = let later = cancel s ws in if w.stream == s then later else w ∷ later

unfoldable pub manage : ℕ → Address → ℕ → Bool → Controller → Controller
manage now address stream connected c =
    let entry : Managed = record {
      address = address;
      stream = stream;
      connected = connected;
      last_use = now;
      last_check = now;
      failures = 0;
      reconnect_pending = false;
    } in
    let managed = c.managed ++ (entry ∷ []) in
    record c {
      managed = managed;
      connected_count = c.connected_count + bit connected;
      total_count = length managed;
    }

unfoldable pub unmanage : ℕ → Controller → Controller
unmanage s c =
    let left = erase s c.managed in
    let queue = cancel s c.reconnect_queue in
    elim (find_entry s c.managed) [
      | none ↦ record c { reconnect_queue = queue }
      | some m ↦ record c {
        managed = left;
        reconnect_queue = queue;
        connected_count = c.connected_count - bit m.connected;
        total_count = length left;
      }
    ]

unfoldable pub notify_used : ℕ → ℕ → Controller → Controller
notify_used now s c = elim (find_entry s c.managed) [
  | none ↦ c
  | some m ↦ record c { managed = replace s (record m { last_use = now; failures = 0 }) c.managed }
]

abbrev pub work_of : Managed → Work
work_of m = record { stream = m.stream; address = m.address; retries = 0 }

-- `connected->exchange(false)`, and work for a worker unless there is some.
unfoldable pub lose : Managed → Controller → Controller
lose m c = record c {
  managed = replace m.stream (record m { connected = false; reconnect_pending = true }) c.managed;
  reconnect_queue =
      if m.reconnect_pending then c.reconnect_queue else c.reconnect_queue ++ (work_of m ∷ []);
  connected_count = c.connected_count - bit m.connected;
}

unfoldable pub notify_failure : ℕ → Controller → Controller
notify_failure s c = elim (find_entry s c.managed) [
  | none ↦ c
  | some m ↦
      let failed = record m { failures = m.failures + 1 } in
      lose failed (record c { managed = replace s failed c.managed })
]

-- A health check at this index failed: the entry there must still be that of the stream.
unfoldable pub fail_check : ℕ × ℕ → Controller → Controller
fail_check (idx, s) c = elim (get_elem? c.managed idx) [
  | none ↦ c
  | some m ↦ if m.stream == s then lose m c else c
]

-- A worker takes the first work: it drops it if the stream is not managed or is connected, or if there
-- is no function to open connections, `opens` being whether there is one.
unfoldable pub take_work : Bool → Controller → Controller
take_work opens c = elim c.reconnect_queue [
  | [] ↦ c
  | w ∷ ws ↦ elim (find_entry w.stream c.managed) [
    | none ↦ record c { reconnect_queue = ws }
    | some m ↦
        if not opens || m.connected
        then record c { reconnect_queue = ws }
        else record c { reconnect_queue = ws; in_flight = w ∷ c.in_flight }
  ]
]

-- The delay before an attempt, in milliseconds.
unfoldable pub reconnect_delay : ℕ → ℕ
reconnect_delay retries = min (5 * 2 ^ min retries 6) 5000

-- What a worker does with the outcome of its attempt; `left` is the work of the others.
unfoldable pub finish_work : ℕ → Bool → Work → List Work → Controller → Controller
finish_work now opened w left c = elim (find_entry w.stream c.managed) [
  | none ↦ record c { in_flight = left }
  | some m ↦
      if opened
      then record c {
        managed =
            replace w.stream
              (record m {
                reconnect_pending = false;
                connected = true;
                last_use = now;
                last_check = now;
                failures = 0;
              })
              c.managed;
        in_flight = left;
        connected_count = c.connected_count + 1;
      }
      else if ltb w.retries 5
      then record c {
        reconnect_queue = c.reconnect_queue ++ (record w { retries = w.retries + 1 } ∷ []);
        in_flight = left;
      }
      else record c {
        managed = replace w.stream (record m { reconnect_pending = false }) c.managed;
        in_flight = left;
      }
]
