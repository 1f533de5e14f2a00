-- ===== src/Examples/Metrics.antt =====
-- The theorems on runs and costs, on three runs and on a process of three boundaries.
use zeromux.Examples.Data.{three_runs}
use zeromux.Prelude.{◌+◌, ◌≡◌, true, false, some, List, [], ◌∷◌, arith}
use zeromux.RunMetrics.{durations, compute_stats}
use zeromux.RunMetrics.Cost.{
  Boundary, lifetime_cost, first_total, last_total, lifetime_cost-telescopes,
}
use zeromux.RunMetrics.Stats.{IsNearestRank, compute_stats-IsNearestRank}

compute_stats-IsNearestRank_example :
    IsNearestRank (durations three_runs) 50 (compute_stats three_runs).p50_ms
    × IsNearestRank (durations three_runs) 95 (compute_stats three_runs).p95_ms
compute_stats-IsNearestRank_example = compute_stats-IsNearestRank three_runs (omega arith)

abbrev three_boundaries : List Boundary
three_boundaries =
    record { total = some 5; recorded = true }
    ∷ record { total = some 6; recorded = false }
    ∷ record { total = some 9; recorded = true }
    ∷ []

lifetime_cost-telescopes_example :
    lifetime_cost true three_boundaries + first_total three_boundaries
    ≡ last_total 0 three_boundaries
lifetime_cost-telescopes_example = lifetime_cost-telescopes true three_boundaries (ground arith)
