-- ===== src/RunMetrics/Stats.antt =====
-- What the statistics of run_metrics.rs say of the runs: the nearest-rank percentiles, the order of
-- the figures, and the partition by outcome.
use zeromux.Prelude.{
  ℕ, zero, suc, ◌+◌, ◌-◌, ◌*◌, ◌/◌, ◌≤◌, ◌<◌, ◌≡◌, refl, sym, ap, subst, ◌∙◌, List, [], ◌∷◌, arith,
  ltb, leb, length, get_or, count_if, All,
}
use native.Mathlib.Nat.{div-le_of_le-mul, mul_comm}
use zeromux.RunMetrics.{
  RunMetric, sort_unstable, percentile, sum, last_or, durations, compute_stats,
}
use zeromux.RunMetrics.Sorted.{
  IsSorted, sort_unstable-IsSorted, count_if-sort_unstable, length-sort_unstable, rank-le-count,
  count-le-rank, get_or_mono, sum-sort_unstable,
}

mul_le_mul : (p n : ℕ) → p ≤ 100 → p * n ≤ 100 * n
mul_le_mul p n h = grind arith

mul_pos : (p n : ℕ) → 1 ≤ p → 1 ≤ n → 1 ≤ p * n
mul_pos p n h k = grind arith

-- The index that the nearest rank picks.
percentile_index :
    (x : ℕ) (xs : List ℕ) (p : ℕ)
    → 1 ≤ p
    → p ≤ 100
    → (i : ℕ) × (percentile (x ∷ xs) p ≡ get_or (x ∷ xs) i 0)
      × (i < length (x ∷ xs))
      × (p * length (x ∷ xs) ≤ 100 * suc i)
      × (100 * i < p * length (x ∷ xs))
unfolding percentile
percentile_index x xs p lo hi =
    let n = length (x ∷ xs) in
    let top : p * n ≤ 100 * n = mul_le_mul p n hi in
    let low : 1 ≤ p * n = mul_pos p n lo (omega arith) in
    ((p * n + 99) / 100 - 1, ground arith, omega arith, omega arith, omega arith)

percentile-le-last :
    (x : ℕ) (xs : List ℕ) (i d : ℕ)
    → IsSorted (x ∷ xs)
    → i < length (x ∷ xs)
    → get_or (x ∷ xs) i 0 ≤ last_or (x ∷ xs) d
unfolding last_or
percentile-le-last x [] zero d s h = omega arith
percentile-le-last x [] (suc i) d s h = absurd (omega arith)
percentile-le-last x (y ∷ ys) zero d s h =
    omega (arith, percentile-le-last y ys 0 x s.1 (omega arith), s.0.0)
percentile-le-last x (y ∷ ys) (suc i) d s h = percentile-le-last y ys i x s.1 (omega arith)

-- `d` is a nearest-rank percentile of `xs`: at least p percent are at most `d`, fewer are below it.
abbrev pub IsNearestRank : List ℕ → ℕ → ℕ → Type 0
IsNearestRank xs p d =
    (p * length xs ≤ 100 * count_if (λ x. leb x d) xs)
    × (100 * count_if (λ x. ltb x d) xs < p * length xs)

percentile-IsNearestRank :
    (xs : List ℕ) (p : ℕ)
    → 1 ≤ p
    → p ≤ 100
    → 0 < length xs
    → IsSorted xs
    → IsNearestRank xs p (percentile xs p)
percentile-IsNearestRank [] p lo hi h s = elim h [ ]
percentile-IsNearestRank (x ∷ xs) p lo hi h s =
    let (i, e, inside, reach, below) = percentile_index x xs p lo hi in
    subst (IsNearestRank (x ∷ xs) p) (sym e)
      (omega (arith, rank-le-count (x ∷ xs) i s inside), omega (arith, count-le-rank (x ∷ xs) i s))

percentile_of_sort :
    (xs : List ℕ) (p : ℕ)
    → 1 ≤ p
    → p ≤ 100
    → 0 < length xs
    → IsNearestRank xs p (percentile (sort_unstable xs) p)
percentile_of_sort xs p lo hi h =
    let ys = sort_unstable xs in
    let same = length-sort_unstable xs in
    let rank =
      percentile-IsNearestRank ys p lo hi (omega (arith, same)) (sort_unstable-IsSorted xs) in
    let scaled = ap (λ (n : ℕ). p * n) same in
    let d = percentile ys p in
    (
      omega (arith, rank, scaled, count_if-sort_unstable (λ x. leb x d) xs),
      omega (arith, rank, scaled, count_if-sort_unstable (λ x. ltb x d) xs),
    )

length-durations : (runs : List RunMetric) → length (durations runs) ≡ length runs
unfolding durations
length-durations [] = refl
length-durations (r ∷ rs) = ap suc (length-durations rs)

-- Of at least one run, the two percentiles of a session's statistics are nearest-rank percentiles of its
-- durations: at least that share of them is at most the figure, and less than that share is below it.
pub compute_stats-IsNearestRank :
    (runs : List RunMetric)
    → 0 < length runs
    → IsNearestRank (durations runs) 50 (compute_stats runs).p50_ms
      × IsNearestRank (durations runs) 95 (compute_stats runs).p95_ms
unfolding compute_stats
compute_stats-IsNearestRank runs h =
    let busy : 0 < length (durations runs) = omega (arith, length-durations runs) in
    (
      percentile_of_sort (durations runs) 50 (omega arith) (omega arith) busy,
      percentile_of_sort (durations runs) 95 (omega arith) (omega arith) busy,
    )

sum-le : (xs : List ℕ) (m : ℕ) → All (λ x. x ≤ m) xs → sum xs ≤ m * length xs
unfolding sum
sum-le [] m h = omega arith
sum-le (x ∷ xs) m h = grind (arith, sum-le xs m h.1)

-- The four outcomes partition the runs.
pub compute_stats_partition :
    (runs : List RunMetric)
    → let s = compute_stats runs in
      s.completed_count + s.errored_count + s.timeout_count + s.cancelled_count ≡ s.count
unfolding compute_stats
compute_stats_partition [] = refl
compute_stats_partition (r ∷ rs) = ground (arith, compute_stats_partition rs)

le-last_or : (x : ℕ) (xs : List ℕ) (d : ℕ) → IsSorted (x ∷ xs) → x ≤ last_or (x ∷ xs) d
unfolding last_or
le-last_or x xs d s = percentile-le-last x xs 0 d s (omega arith)

All-last_or : (xs : List ℕ) (d : ℕ) → IsSorted xs → All (λ z. z ≤ last_or xs d) xs
unfolding last_or
All-last_or [] d s = tt
All-last_or (x ∷ xs) d s = (le-last_or x xs d s, All-last_or xs x s.1)

div-le : (s m n : ℕ) → s ≤ m * n → 0 < n → s / n ≤ m
div-le s m n h k = div-le_of_le-mul n (omega (arith, mul_comm n m))

percentile-le :
    (xs : List ℕ) (p : ℕ) → 1 ≤ p → p ≤ 100 → IsSorted xs → percentile xs p ≤ last_or xs 0
unfolding percentile last_or
percentile-le [] p lo hi s = omega arith
percentile-le (x ∷ xs) p lo hi s =
    let (i, e, inside, _, _) = percentile_index x xs p lo hi in
    omega (arith, e, percentile-le-last x xs i 0 s inside)

percentile_mono : (xs : List ℕ) → IsSorted xs → percentile xs 50 ≤ percentile xs 95
unfolding percentile
percentile_mono [] s = omega arith
percentile_mono (x ∷ xs) s =
    let (i, e, inside, reach, below) = percentile_index x xs 50 (omega arith) (omega arith) in
    let (j, e', inside', reach', below') = percentile_index x xs 95 (omega arith) (omega arith) in
    omega (arith, e, e', get_or_mono (x ∷ xs) i j s (omega arith) inside')

-- The figures are in order: the median, the 95th percentile, the longest; the mean is at most that.
pub compute_stats_ordered :
    (runs : List RunMetric)
    → let s = compute_stats runs in
      (s.p50_ms ≤ s.p95_ms) × (s.p95_ms ≤ s.max_ms) × (s.avg_ms ≤ s.max_ms)
unfolding compute_stats
compute_stats_ordered [] = omega arith
compute_stats_ordered (r ∷ rs) =
    let xs = durations (r ∷ rs) in
    let s = sort_unstable-IsSorted xs in
    let ys = sort_unstable xs in
    let mean =
      div-le (sum xs) (last_or ys 0) (length (r ∷ rs))
        (omega (
          arith,
          sum-le ys (last_or ys 0) (All-last_or ys 0 s),
          sum-sort_unstable xs,
          ap (λ (n : ℕ). last_or ys 0 * n) (length-sort_unstable xs ∙ length-durations (r ∷ rs)),
        ))
        (omega arith) in
    (percentile_mono ys s, percentile-le ys 95 (omega arith) (omega arith) s, ground (arith, mean))
