-- ===== src/Latency/Runs.antt =====
-- Runs of the latency manager, and the theorems at them.
use dnss_cpp.Common.{refl, true, false, List, [], ◌∷◌, All}
use dnss_cpp.Latency.{Reading, base_urgency}
use dnss_cpp.Latency.Bounds.{IsCalm}

abbrev slow : Reading
slow = record {
  over_10 = true;
  over_5 = true;
  over_3 = true;
  over_2 = true;
  over_1_5 = true;
  from_1_1 = true;
  few_hits = false;
  thread_pool_load = 11;
}

abbrev pub fast : Reading
fast = record {
  over_10 = false;
  over_5 = false;
  over_3 = false;
  over_2 = false;
  over_1_5 = false;
  from_1_1 = false;
  few_hits = false;
  thread_pool_load = 0;
}

abbrev slow_run : List Reading
slow_run = slow ∷ slow ∷ []

abbrev fast_run : List Reading
fast_run = fast ∷ fast ∷ fast ∷ fast ∷ fast ∷ fast ∷ []

fast-IsCalm : IsCalm fast
unfolding base_urgency
fast-IsCalm = (refl, refl)

fast_run-IsCalm : All IsCalm fast_run
fast_run-IsCalm =
    (fast-IsCalm, (fast-IsCalm, (fast-IsCalm, (fast-IsCalm, (fast-IsCalm, (fast-IsCalm, tt))))))
