-- ===== src/Examples/Scheduled.antt =====
-- The theorems on the table of scheduled runs, at two runs of one task that were claimed at once.
use mathlib.Core.Bool.{false≢true}
use zeromux.Prelude.{ℕ, ◌≡◌, String, str_eq, true, none, some, List, [], ◌∷◌, All, refl, false}
use zeromux.ScheduledRuns.{
  RunState, claimed, succeeded, failed, aborted, is_active, TaskRun, Update, active_states_for_task,
  should_skip_overlap, claim_won,
}
use zeromux.ScheduledRuns.Claims.{
  claim, set_state, orphans, find_run, IsOldestActive, claim_won_unique,
}
use zeromux.ScheduledRuns.Ended.{Step, changed, task_deleted, StaysEnded, step_all, ended_run_stays}
use zeromux.ScheduledRuns.Awaiting.{
  Change, written, timeouts, retention, decided, change_all, awaiting_run_stays,
}
use zeromux.ScheduledRuns.Reconcile.{
  TaskConfig, config_of, reconcile_timeouts_per_task, awaits_confirmation, prune_runs,
}
use zeromux.ScheduledRuns.Timeouts.{IsInTime, reconcile_leaves_none_stale, prune_opens_guard}

abbrev run_row : String → ℕ → RunState → TaskRun
run_row id at state = record {
  id = id;
  task_id = "t1";
  scheduled_for_ms = at;
  state = state;
  session_id = none;
  verdict = none;
  failure_kind = none;
  started_ms = some at;
  ended_ms = none;
  confirm_status = none;
}

abbrev two_claims : List TaskRun
two_claims = run_row "r0" 1 succeeded ∷ run_row "r1" 5 claimed ∷ run_row "r2" 6 claimed ∷ []

abbrev late_failure : Update
late_failure = record {
  state = failed;
  session_id = none;
  verdict = none;
  failure_kind = some "cli_exited";
  ended_ms = some 9;
}

claim_won_unique_example :
    (winner : TaskRun) × IsOldestActive "t1" two_claims winner
    × ((other : String) → claim_won "t1" other two_claims ≡ str_eq winner.id other)
unfolding active_states_for_task should_skip_overlap
claim_won_unique_example = claim_won_unique "t1" two_claims refl

abbrev config_t1 : TaskConfig
config_t1 = record {
  id = "t1";
  owner_id = "u";
  side_effects = true;
  max_runtime_min = some 1;
  idle_timeout_min = none;
}

-- A run that timed out and waits for a decision.
abbrev waiting : TaskRun
waiting = record (run_row "r0" 1 aborted) { failure_kind = some "idle_timeout"; ended_ms = some 8 }

abbrev changes : List Change
changes =
    written (claim (run_row "r3" 7 claimed))
    ∷ timeouts (λ id. none) 9000000
    ∷ retention "t1" 0
    ∷ decided "r3" "confirmed"
    ∷ []

-- A late failure, a new claim, a restart, a decision, a retention of one run and another task's deletion.
abbrev late_steps : List Step
late_steps =
    changed (written (set_state "r0" late_failure))
    ∷ changed (written (claim (run_row "r3" 7 claimed)))
    ∷ changed (written (orphans none 20))
    ∷ changed (decided "r0" "confirmed")
    ∷ changed (retention "t1" 1)
    ∷ task_deleted "t2"
    ∷ []

ended_run_stays_example :
    StaysEnded (run_row "r0" 1 succeeded) (step_all (config_t1 ∷ []) late_steps two_claims)
ended_run_stays_example =
    ended_run_stays (config_t1 ∷ []) late_steps (run_row "r0" 1 succeeded) two_claims refl
      (tt, (refl, (tt, (tt, (tt, (tt, tt))))))
      ((λ _. (none, refl)), ((λ e. absurd (false≢true e)), ((λ e. absurd (false≢true e)), tt)))

awaiting_run_stays_example :
    find_run "r0" (change_all (config_t1 ∷ []) changes (waiting ∷ two_claims)) ≡ some waiting
unfolding find_run awaits_confirmation
awaiting_run_stays_example =
    awaiting_run_stays (config_t1 ∷ []) changes "r0" (waiting ∷ two_claims) waiting refl
      (tt, (tt, (tt, (refl, tt)))) refl

reconcile_leaves_none_stale_example :
    All
      (λ r.
        is_active r.state ≡ true
        → (c : TaskConfig) → config_of (config_t1 ∷ []) r ≡ some c
        → IsInTime (λ id. none) 70000 r c)
      (reconcile_timeouts_per_task (λ id. none) 70000 (config_t1 ∷ []) two_claims).0
reconcile_leaves_none_stale_example =
    reconcile_leaves_none_stale (λ id. none) 70000 (config_t1 ∷ []) two_claims

prune_opens_guard_example :
    should_skip_overlap
      (active_states_for_task "t1" (prune_runs (config_t1 ∷ []) "t1" 0 two_claims))
    ≡ false
prune_opens_guard_example = prune_opens_guard (config_t1 ∷ []) "t1" two_claims
