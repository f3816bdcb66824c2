-- ===== src/Metrics/Percentiles.antt =====
-- The percentiles of a window.
use katalyst.Prelude.{
  ℕ, ◌+◌, ◌*◌, ◌/◌, ◌≤◌, ◌<◌, ◌≡◌, refl, ap, subst, inl, inr, false, Option, none, some, List, [],
  ◌∷◌, map, arith, ltb, leb, ◌==◌, Bool-cases, length, keep, All, Any, All-map,
}
use native.Mathlib.Nat.{mul-le-mul_right}
use katalyst.Prelude.Words.{lt64}
use katalyst.Metrics.Store.{
  DataPoint, MetricsWindow, last_timestamp, greatest, value_at, sort_values, percentile_index,
  percentile, max_val, is_within, window_of, compute_window,
}
use katalyst.Metrics.Sorting.{
  rank, sort_values-All, sort_values-IsSorted, length-sort_values, value_at-All, value_at-IsSorted,
  max_val-rank, count_below, count_up_to, value_at-counts, length-keep-sort_values,
}

percentile_index-lt : (pct n : ℕ) → 0 < n → percentile_index pct n < n
percentile_index-lt pct n h = elim (Bool-cases (leb n (pct * n / 100))) [
  | inl y ↦ rw y (omega arith)
  | inr below ↦ rw below (ground (arith, below))
]

percentile_index-le : (p q n : ℕ) → p ≤ q → percentile_index p n ≤ percentile_index q n
percentile_index-le p q n h = ground (arith, mul-le-mul_right n h)

-- The share of the values before the index, for a share below the whole.
percentile_index_lem :
    (pct n : ℕ)
    → pct < 100
    → 0 < n
    → (100 * percentile_index pct n ≤ pct * n) × (pct * n < 100 * percentile_index pct n + 100)
percentile_index_lem pct n small h =
    let below_all : pct + 1 ≤ 100 = omega arith in
    let most : (pct + 1) * n ≤ 100 * n = mul-le-mul_right n below_all in
    let less : pct * n < 100 * n = omega (arith, most) in
    elim (Bool-cases (leb n (pct * n / 100))) [
      | inl y ↦ absurd (ground (arith, y, less))
      | inr below ↦ rw below (omega arith, omega arith)
    ]

skip_second : (P : ℕ → Type 0) (m v : ℕ) (vs : List ℕ) → Any P (m ∷ vs) → Any P (m ∷ v ∷ vs)
skip_second P m v vs (inl h) = inl h
skip_second P m v vs (inr h) = inr (inr h)

-- The percentile of some values is one of them.
percentile-All :
    (P : ℕ → Type 0) (pct : ℕ) (values : List ℕ)
    → 0 < length values
    → All P values
    → P (percentile values pct)
unfolding percentile
percentile-All P pct values h k =
    let full : (length values == 0) ≡ false = ground arith in
    let size = length-sort_values values in
    rw full (
      value_at-All P (sort_values values) (percentile_index pct (length (sort_values values)))
        (sort_values-All P values k)
        (percentile_index-lt pct (length (sort_values values)) (omega arith)))

percentile-rank :
    (p q : ℕ) (values : List ℕ) → p ≤ q → rank (percentile values p) ≤ rank (percentile values q)
unfolding percentile
percentile-rank p q values h = elim (Bool-cases (length values == 0)) [
  | inl y ↦ rw y (omega arith)
  | inr full ↦
      let size = length-sort_values values in
      let more : 0 < length (sort_values values) = ground (arith, full, size) in
      rw full (
        value_at-IsSorted (sort_values values) (percentile_index p (length (sort_values values)))
          (percentile_index q (length (sort_values values))) (sort_values-IsSorted values)
          (percentile_index-le p q (length (sort_values values)) h)
          (percentile_index-lt q (length (sort_values values)) more))
]

percentile-max_val :
    (pct : ℕ) (values : List ℕ)
    → 0 < length values
    → rank (percentile values pct) ≤ rank (max_val values)
percentile-max_val pct values h =
    percentile-All (λ v. rank v ≤ rank (max_val values)) pct values h (max_val-rank values)

-- The 50th, 95th and 99th percentiles and the maximum of some values, in the signed order.
abbrev pub IsRising : ℕ → ℕ → ℕ → ℕ → Type 0
IsRising p50 p95 p99 most = (rank p50 ≤ rank p95) × (rank p95 ≤ rank p99) × (rank p99 ≤ rank most)

percentiles-IsRising :
    (values : List ℕ)
    → 0 < length values
    → IsRising (percentile values 50) (percentile values 95) (percentile values 99) (max_val values)
percentiles-IsRising values h = (
  percentile-rank 50 95 values (omega arith),
  percentile-rank 95 99 values (omega arith),
  percentile-max_val 99 values h,
)

-- A percentile by its rank: it is one of the values, at most the given share of the values are below
-- it, and more than that share are not above it.
abbrev pub IsPercentile : ℕ → List ℕ → ℕ → Type 0
IsPercentile pct values v =
    Any (λ x. x ≡ v) values
    × (100 * count_below v values ≤ pct * length values)
    × (pct * length values < 100 * count_up_to v values)

-- The greatest of the values.
abbrev pub IsGreatest : List ℕ → ℕ → Type 0
IsGreatest values v = Any (λ x. x ≡ v) values × All (λ x. rank x ≤ rank v) values

own-Any : (xs : List ℕ) → All (λ v. Any (λ x. x ≡ v) xs) xs
own-Any [] = tt
own-Any (x ∷ xs) = (
  inl refl,
  All-map (λ v. Any (λ y. y ≡ v) xs) (λ v. Any (λ y. y ≡ v) (x ∷ xs)) (λ v h. inr h) xs
      (own-Any xs),
)

percentile-IsPercentile :
    (pct : ℕ) (values : List ℕ)
    → pct < 100
    → 0 < length values
    → IsPercentile pct values (percentile values pct)
unfolding percentile
percentile-IsPercentile pct values small h =
    let v : ℕ = percentile values pct in
    let member : Any (λ x. x ≡ v) values =
      percentile-All (λ u. Any (λ x. x ≡ u) values) pct values h (own-Any values) in
    let n : ℕ = length (sort_values values) in
    let size : n ≡ length values = length-sort_values values in
    let i : ℕ = percentile_index pct n in
    let place : (100 * i ≤ pct * n) × (pct * n < 100 * i + 100) =
      percentile_index_lem pct n small (omega (arith, size)) in
    let full : (length values == 0) ≡ false = ground arith in
    let at_index : v ≡ value_at (sort_values values) i = rw full in
    let (below, up_to) =
      value_at-counts (sort_values values) i (sort_values-IsSorted values)
        (percentile_index-lt pct n (omega (arith, size))) in
    let same_below = length-keep-sort_values (λ x. ltb (rank x) (rank v)) values in
    let same_up_to = length-keep-sort_values (λ x. leb (rank x) (rank v)) values in
    let below_v : count_below v (sort_values values) ≤ i = rw at_index below in
    let up_to_v : i < count_up_to v (sort_values values) = rw at_index up_to in
    let total : pct * n ≡ pct * length values = ap (λ t. pct * t) size in
    (
      member,
      omega (arith, place, same_below, below_v, total),
      omega (arith, place, same_up_to, up_to_v, total),
    )

max_val-Any : (m : ℕ) (vs : List ℕ) → Any (λ x. x ≡ greatest m vs) (m ∷ vs)
max_val-Any m [] = inl refl
max_val-Any m (v ∷ vs) =
    let IsThere : ℕ → Type 0 = λ g. Any (λ x. x ≡ g) (m ∷ v ∷ vs) in
    elim (Bool-cases (lt64 m v)) [
      | inl less ↦
          let e : greatest v vs ≡ greatest m (v ∷ vs) = rw less in
          subst IsThere e (inr (max_val-Any v vs))
      | inr more ↦
          let e : greatest m vs ≡ greatest m (v ∷ vs) = rw more in
          subst IsThere e (skip_second (λ x. x ≡ greatest m vs) m v vs (max_val-Any m vs))
    ]

-- What a window says of one resource: the 50th, 95th and 99th percentiles and the maximum.
abbrev pub AreStatistics : List ℕ → ℕ → ℕ → ℕ → ℕ → Type 0
AreStatistics values p50 p95 p99 most =
    IsPercentile 50 values p50
    × IsPercentile 95 values p95
    × IsPercentile 99 values p99
    × IsGreatest values most
    × IsRising p50 p95 p99 most

percentile-AreStatistics :
    (v : ℕ) (vs : List ℕ)
    → AreStatistics
        (v ∷ vs)
        (percentile (v ∷ vs) 50)
        (percentile (v ∷ vs) 95)
        (percentile (v ∷ vs) 99)
        (max_val (v ∷ vs))
unfolding max_val
percentile-AreStatistics v vs = (
  percentile-IsPercentile 50 (v ∷ vs) (omega arith) (omega arith),
  percentile-IsPercentile 95 (v ∷ vs) (omega arith) (omega arith),
  percentile-IsPercentile 99 (v ∷ vs) (omega arith) (omega arith),
  (max_val-Any v vs, max_val-rank (v ∷ vs)),
  percentiles-IsRising (v ∷ vs) (omega arith),
)

-- A window of the points, or none if there are no points.
abbrev pub IsWindowOf : List DataPoint → Option MetricsWindow → Type 0
IsWindowOf [] none = Unit
IsWindowOf [] (some w) = ⊥
IsWindowOf (p ∷ ps) none = ⊥
IsWindowOf (p ∷ ps) (some w) =
    (w.start ≡ p.timestamp)
    × (w.end ≡ last_timestamp p ps)
    × (w.data_points ≡ length (p ∷ ps))
    × AreStatistics (map (λ q. q.cpu_usage) (p ∷ ps)) w.p50_cpu w.p95_cpu w.p99_cpu w.max_cpu
    × AreStatistics (map (λ q. q.memory_usage) (p ∷ ps)) w.p50_memory w.p95_memory w.p99_memory
        w.max_memory

window_of-IsWindowOf : (points : List DataPoint) → IsWindowOf points (window_of points)
unfolding window_of
window_of-IsWindowOf [] = tt
window_of-IsWindowOf (p ∷ ps) = (
  refl,
  refl,
  refl,
  percentile-AreStatistics p.cpu_usage (map (λ q. q.cpu_usage) ps),
  percentile-AreStatistics p.memory_usage (map (λ q. q.memory_usage) ps),
)

-- There is a window exactly if some point is recent enough. It names the first and the last time of the
-- recent points and counts them. Of the CPU values of these points, and of their memory values, the
-- 50th, 95th and 99th percentiles are each one of the values, with at most that share of the values
-- below it and more than that share not above it; the maximum is the greatest of the values; and none
-- of the four is less than the one before. Values are in the signed order.
pub compute_window-IsWindowOf :
    (duration now : ℕ) (points : List DataPoint)
    → IsWindowOf (keep (is_within duration now) points) (compute_window duration now points)
unfolding compute_window
compute_window-IsWindowOf duration now points =
    window_of-IsWindowOf (keep (is_within duration now) points)
