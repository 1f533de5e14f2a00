-- ===== src/AutoUpdate/Swaps.antt =====
-- When the auto-updater launches a swap.
use mathlib.Core.Bool.{false≢true}
use zeromux.AutoUpdate.{
  UpdateConfig, Observation, Updater, Outcome, launch_swap, gate_decision, try_swap, pass_gate,
  judge, same_sha, waited_secs,
}
use zeromux.AutoUpdate.Marker.{health_failed_recently}
use zeromux.Prelude.{
  ℕ, ◌≤◌, ◌≡◌, ◌≢◌, ◌⊎◌, true, false, Option, some, Text, text_eq, text_eq_refl, arith, All, sym,
  ap, ◌∙◌, unwrap_or,
}
use zeromux.ScheduledRuns.{TaskRun, is_active}
use zeromux.Session.{Session}
use zeromux.Session.Summary.{RunningSummary, RunTable, not_wired, unreadable, rows}

-- What has to hold when a swap is launched for a build that has been pending since `since`.
pub record IsSafe (cfg : UpdateConfig) (o : Observation) (since : Option ℕ) (sha : Text)
    : Type 0 where
  pub foreign : sha ≢ cfg.self_sha
  pub not_marked : health_failed_recently o.marker sha o.wall_secs 21600 ≡ false
  pub smoke_passed : o.smoke_ok ≡ true
  pub no_run_before : (summary : RunningSummary) → o.summary ≡ some summary → summary.scheduled ≡ 0
  pub turns_waited :
      (summary : RunningSummary)
      → o.summary ≡ some summary
      → (summary.interactive ≡ 0) ⊎ (cfg.max_wait_secs ≤ waited_secs o.mono_ms since)
  pub no_run_after : o.recheck.scheduled ≡ 0
  pub read_after : o.recheck.scheduled_read_failed ≡ false

foreign-text_eq : (a b : Text) → text_eq a b ≡ false → a ≢ b
foreign-text_eq a b h e = false≢true (sym h ∙ ap (λ t. text_eq t b) e ∙ text_eq_refl b)

-- The gate lets the build pass that it is given, and leaves the wait as it is.
pass_gate-IsSafe :
    (cfg : UpdateConfig) (o : Observation) (build sha : Text) (s : Updater)
    → text_eq build cfg.self_sha ≡ false
    → health_failed_recently o.marker build o.wall_secs 21600 ≡ false
    → (pass_gate cfg o build s).1 ≡ launch_swap sha
    → IsSafe cfg o (pass_gate cfg o build s).0.pending_since sha × (build ≡ sha)
unfolding pass_gate gate_decision try_swap
pass_gate-IsSafe cfg o build sha s d m e = ground (arith, foreign-text_eq build cfg.self_sha d)

pub judge-IsSafe :
    (cfg : UpdateConfig) (o : Observation) (build sha : Text) (s : Updater)
    → (judge cfg o build s).1 ≡ launch_swap sha
    → IsSafe cfg o (judge cfg o build s).0.pending_since sha
      × (build ≡ sha)
      × (same_sha s.smoke_failed_sha sha ≡ false)
unfolding judge
judge-IsSafe cfg o build sha s e = ground (
  arith,
  pass_gate-IsSafe cfg o build sha
      (record s { pending_since = some (unwrap_or s.pending_since o.mono_ms) }),
)

abbrev Safe : UpdateConfig → Observation → Text → Updater → Updater × Outcome → Type 0
Safe cfg o sha s (t, outcome) =
    outcome ≡ launch_swap sha
    → IsSafe cfg o t.pending_since sha × (same_sha s.smoke_failed_sha sha ≡ false)

abbrev IsInactive : TaskRun → Type 0
IsInactive r = is_active r.state ≡ false

-- Every row of the table is in a final state, and the table was read.
abbrev pub NoRunInFlight : RunTable → Type 0
NoRunInFlight not_wired = Unit
NoRunInFlight unreadable = ⊥
NoRunInFlight (rows table) = All IsInactive table
