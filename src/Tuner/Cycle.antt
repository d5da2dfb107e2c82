-- ===== src/Tuner/Cycle.antt =====
-- `AutoTuner::tune` as one call, and its cycles, which come every three seconds.
use dnss_cpp.Common.{ℕ, ◌+◌, Bool, List, [], ◌∷◌, if◌then◌else◌}
use dnss_cpp.Tuner.{Reading, Tuner}
use dnss_cpp.Tuner.Anomaly.{evaluate_gap, probe, track_states, is_idle, detect, cool_down}
use dnss_cpp.Tuner.Growth.{grow}

unfoldable pub count_sample : Tuner → Tuner
count_sample t = record t { samples_collected = t.samples_collected + 1 }

-- The state that the checks see.
unfoldable pub observe : Reading → Tuner → Tuner
observe r t = track_states r (probe (evaluate_gap r t)).1

-- Whether the cycle stops after the checks, and its state there.
unfoldable pub check : ℕ → Reading → Tuner → Bool × Tuner
check now r t = let seen = observe r t in cool_down now (is_idle r seen) (detect now r seen)

unfoldable pub tune : ℕ → Reading → Tuner → Tuner
tune now r t =
    let (skip_growth, u) = check now r t in count_sample (if skip_growth then u else grow now r u)

unfoldable pub tune_all : List (ℕ × Reading) → Tuner → Tuner
tune_all [] t = t
tune_all ((now, r) ∷ cycles) t = tune_all cycles (tune now r t)
