-- ===== src/Latency/Bounds.antt =====
-- The bounds of what LatencyManager advises, and that it calms down.
use dnss_cpp.Common.{
  ℕ, ◌+◌, ◌-◌, ◌≤◌, ◌<◌, ◌≡◌, ◌⊎◌, true, false, List, [], ◌∷◌, arith, length, All,
}
use dnss_cpp.Latency.{
  Reading, Bottleneck, unknown, queue, hits, upstream, LatencyManager, initial, count_over,
  base_urgency, raise, evaluate, evaluate_all, thread_boost, conn_boost, cache_refresh_boost,
  force_fan_out,
}

abbrev pub IsBounded : LatencyManager → Type 0
IsBounded m = (m.urgency ≤ 5) × (m.consecutive_over ≤ 10)

base_urgency_le : (r : Reading) → base_urgency r ≤ 5
unfolding base_urgency
base_urgency_le r = ground arith

raise_le : (over u : ℕ) → u ≤ 5 → raise over u ≤ 5
unfolding raise
raise_le over u h = ground arith

count_over_le : (r : Reading) (n : ℕ) → n ≤ 10 → count_over r n ≤ 10
unfolding count_over
count_over_le r n h = ground arith

evaluate-IsBounded : (r : Reading) (m : LatencyManager) → IsBounded m → IsBounded (evaluate r m)
unfolding evaluate
evaluate-IsBounded r m (a, b) = (
  raise_le (count_over r m.consecutive_over) (base_urgency r) (base_urgency_le r),
  count_over_le r m.consecutive_over b,
)

evaluate_all-IsBounded :
    (rs : List Reading) (m : LatencyManager) → IsBounded m → IsBounded (evaluate_all rs m)
unfolding evaluate_all
evaluate_all-IsBounded [] m h = h
evaluate_all-IsBounded (r ∷ rs) m h =
    evaluate_all-IsBounded rs (evaluate r m) (evaluate-IsBounded r m h)

-- What is advised: nothing without urgency, and boosts within these bounds with it.
abbrev pub Advises : LatencyManager → Type 0
Advises m =
    ((m.urgency ≡ 0)
      × (thread_boost m ≡ 0)
      × (conn_boost m ≡ 0)
      × (cache_refresh_boost m ≡ 0)
      × (force_fan_out m ≡ false))
    ⊎ ((0 < thread_boost m)
        × (thread_boost m ≤ 15)
        × (0 < conn_boost m)
        × (conn_boost m ≤ 10)
        × (4 ≤ cache_refresh_boost m)
        × (cache_refresh_boost m ≤ 12)
        × (force_fan_out m ≡ true))

by_bottleneck :
    (b : Bottleneck) (u over : ℕ)
    → u ≤ 5
    → Advises (record { urgency = u; consecutive_over = over; bottleneck = b })
unfolding thread_boost conn_boost cache_refresh_boost force_fan_out
by_bottleneck unknown u over h = ground arith
by_bottleneck queue u over h = ground arith
by_bottleneck hits u over h = ground arith
by_bottleneck upstream u over h = ground arith

advise : (m : LatencyManager) → m.urgency ≤ 5 → Advises m
advise m h = by_bottleneck m.bottleneck m.urgency m.consecutive_over h

-- After any evaluations, the urgency is at most 5 and the count of evaluations over the target at most
-- 10. Either there is no urgency, and no boost and no forced fan-out; or fan-out is forced, 1 to 15
-- threads and 1 to 10 connections are added, and 4 to 12 percent to the refresh threshold.
pub evaluate_all-Advises :
    (rs : List Reading) → IsBounded (evaluate_all rs initial) × Advises (evaluate_all rs initial)
evaluate_all-Advises rs =
    let h = evaluate_all-IsBounded rs initial (omega arith, omega arith) in
    (h, advise (evaluate_all rs initial) h.0)

-- A reading within the target.
abbrev pub IsCalm : Reading → Type 0
IsCalm r = (base_urgency r ≡ 0) × (r.from_1_1 ≡ false)

calm_evaluate :
    (r : Reading) (m : LatencyManager)
    → IsCalm r
    → ((evaluate r m).consecutive_over ≡ m.consecutive_over - 1)
      × (m.consecutive_over ≤ 6 → (evaluate r m).urgency ≡ 0)
unfolding evaluate count_over raise
calm_evaluate r m (a, b) = ground (arith, a, b)

calm_all :
    (rs : List Reading) (n : ℕ) (m : LatencyManager)
    → All IsCalm rs
    → m.consecutive_over ≤ 5 + n
    → n < length rs
    → (evaluate_all rs m).urgency ≡ 0
unfolding evaluate_all
calm_all [] n m v c h = absurd (omega arith)
calm_all (r ∷ []) n m (v, vs) c h = (calm_evaluate r m v).1 (omega arith)
calm_all (r ∷ r' ∷ rs) n m (v, vs) c h =
    calm_all (r' ∷ rs) (n - 1) (evaluate r m) vs (omega (arith, (calm_evaluate r m v).0))
      (omega arith)

-- After any evaluations, six readings in a row or more that are below 1.1 and so pass no threshold
-- end all urgency.
pub evaluate_all-calm :
    (before calm : List Reading)
    → All IsCalm calm
    → 6 ≤ length calm
    → (evaluate_all calm (evaluate_all before initial)).urgency ≡ 0
evaluate_all-calm before calm v h =
    calm_all calm 5 (evaluate_all before initial) v
      (omega (arith, (evaluate_all-Advises before).0.1)) (omega arith)
