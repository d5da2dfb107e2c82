-- ===== src/Tuner/Holdoff.antt =====
-- How far apart the tuner raises the number of connections.
use dnss_cpp.Common.{ℕ, ◌+◌, ◌≤◌, List, [], ◌∷◌, arith, ltb, if◌then◌else◌}
use dnss_cpp.Tuner.{Reading, Tuner, holdoff}
use dnss_cpp.Tuner.Cycle.{tune}
use dnss_cpp.Tuner.Bounds.{IsTuned, tune-IsTuned}
use dnss_cpp.Tuner.Cooldown.{tune-Paces}

-- The clock never goes back: `start` is before the first cycle.
abbrev pub IsSteady : ℕ → List (ℕ × Reading) → Type 0
IsSteady start [] = Unit
IsSteady start ((now, r) ∷ cycles) = (start ≤ now) × IsSteady now cycles

-- The times of the cycles that end with more connections than they began with.
unfoldable pub growths : List (ℕ × Reading) → Tuner → List ℕ
growths [] t = []
growths ((now, r) ∷ cycles) t =
    let later = growths cycles (tune now r t) in
    if ltb t.conn_count (tune now r t).conn_count then now ∷ later else later

-- Each time is at least the holdoff after the one before it.
abbrev pub IsSpaced : ℕ → List ℕ → Type 0
IsSpaced last [] = Unit
IsSpaced last (time ∷ times) = (last + holdoff ≤ time) × IsSpaced time times

IsSpaced-earlier : (a b : ℕ) (times : List ℕ) → a ≤ b → IsSpaced b times → IsSpaced a times
IsSpaced-earlier a b [] h s = tt
IsSpaced-earlier a b (time ∷ times) h s = (omega (arith, s.0), s.1)

IsSteady-earlier :
    (a b : ℕ) (cycles : List (ℕ × Reading)) → a ≤ b → IsSteady b cycles → IsSteady a cycles
IsSteady-earlier a b [] h s = tt
IsSteady-earlier a b ((now, r) ∷ cycles) h s = (omega (arith, s.0), s.1)

tune_last :
    (now : ℕ) (r : Reading) (t : Tuner)
    → IsTuned t
    → t.last_conn_change ≤ now
    → (t.last_conn_change ≤ (tune now r t).last_conn_change)
      × ((tune now r t).last_conn_change ≤ now)
tune_last now r t h s = ground (arith, tune-Paces now r t h)

-- Whatever is read in the cycles, two of them that raise the number of connections are at least 15
-- seconds apart, and the first is so from the last change before them, if the clock never goes back
-- and the ranges hold at the start.
pub growths-IsSpaced :
    (cycles : List (ℕ × Reading)) (t : Tuner)
    → IsTuned t
    → IsSteady t.last_conn_change cycles
    → IsSpaced t.last_conn_change (growths cycles t)
unfolding growths
growths-IsSpaced [] t h s = tt
growths-IsSpaced ((now, r) ∷ cycles) t h s =
    let u = tune now r t in
    let (from, to) = tune_last now r t h s.0 in
    let later =
      growths-IsSpaced cycles u (tune-IsTuned now r t h)
        (IsSteady-earlier u.last_conn_change now cycles to s.1) in
    let earlier =
      IsSpaced-earlier t.last_conn_change u.last_conn_change (growths cycles u) from later in
    ground (arith, tune-Paces now r t h, later, earlier)
