-- ===== src/ScheduledRuns/Awaiting.antt =====
-- A run that waits for a human's decision waits until there is one.
use zeromux.Prelude.{
  ℕ, ◌≡◌, String, str_eq, Bool, true, false, not, Option, none, some, List, [], ◌∷◌, retain, arith,
  All,
}
use zeromux.ScheduledRuns.{TaskRun, is_active, set_run_state}
use zeromux.ScheduledRuns.Claims.{Write, set_state, write, find_run, find_run-map, write-keeps}
use zeromux.ScheduledRuns.Reconcile.{
  TaskConfig, timed_out, abort_stale, sweep, verdict_of, reconcile_timeouts_per_task,
  awaits_confirmation, confirmed, set_confirm_status, newest_runs, is_pruned, prune_runs,
}

-- What the program does to the table: a write of a claimant or a reconciler, a round of the watchdog,
-- the retention of a task, and a decision.
pub data Change : Type 0 where
  written : Write → Change
  timeouts : (String → Option ℕ) → ℕ → Change
  retention : String → ℕ → Change
  decided : String → String → Change

module _ (configs : List TaskConfig) where
  unfoldable pub change : Change → List TaskRun → List TaskRun
  change (written w) table = write w table
  change (timeouts mtime now) table = (reconcile_timeouts_per_task mtime now configs table).0
  change (retention task_id keep) table = prune_runs configs task_id keep table
  change (decided run_id status) table = (set_confirm_status configs run_id status table).0

  unfoldable pub change_all : List Change → List TaskRun → List TaskRun
  unfolding change
  change_all [] table = table
  change_all (c ∷ cs) table = change_all cs (change c table)

-- No decision on this run.
abbrev IsUndecided : TaskRun → Change → Type 0
IsUndecided r (decided run_id status) = str_eq r.id run_id ≡ false
IsUndecided r (written w) = Unit
IsUndecided r (timeouts mtime now) = Unit
IsUndecided r (retention task_id keep) = Unit

find_run-retain :
    (q : TaskRun → Bool) (run_id : String) (table : List TaskRun) (r : TaskRun)
    → q r ≡ true
    → find_run run_id table ≡ some r
    → find_run run_id (retain q table) ≡ some r
unfolding find_run
find_run-retain q run_id [] r h e = e
find_run-retain q run_id (x ∷ xs) r h e = ground (arith, find_run-retain q run_id xs r h)

abort_stale-keeps :
    (verdict : Option String) (i : String) (now : ℕ) (table : List TaskRun) (run_id : String)
    (r : TaskRun)
    → is_active r.state ≡ false
    → find_run run_id table ≡ some r
    → find_run run_id (abort_stale verdict i now table) ≡ some r
unfolding set_run_state write
abort_stale-keeps none i now table run_id r h e = e
abort_stale-keeps (some kind) i now table run_id r h e =
    write-keeps (set_state i (timed_out kind now)) run_id table r h e

sweep-keeps :
    (verdict : TaskRun → Option String) (now : ℕ) (runs table : List TaskRun) (run_id : String)
    (r : TaskRun)
    → is_active r.state ≡ false
    → find_run run_id table ≡ some r
    → find_run run_id (sweep verdict now runs table).0 ≡ some r
unfolding sweep
sweep-keeps verdict now [] table run_id r h e = e
sweep-keeps verdict now (x ∷ xs) table run_id r h e =
    sweep-keeps verdict now xs (abort_stale (verdict x) x.id now table) run_id r h
      (abort_stale-keeps (verdict x) x.id now table run_id r h e)

awaiting_inactive :
    (configs : List TaskConfig) (r : TaskRun)
    → awaits_confirmation configs r ≡ true
    → is_active r.state ≡ false
unfolding awaits_confirmation
awaiting_inactive configs r h = ground arith

exempt :
    (configs : List TaskConfig) (task_id : String) (kept : List TaskRun) (r : TaskRun)
    → awaits_confirmation configs r ≡ true
    → not (is_pruned configs task_id kept r) ≡ true
unfolding is_pruned
exempt configs task_id kept r h = ground arith

confirmed-id :
    (configs : List TaskConfig) (run_id status : String) (x : TaskRun)
    → (confirmed configs run_id status x).id ≡ x.id
unfolding confirmed
confirmed-id configs run_id status x = ground arith

undecided_same :
    (configs : List TaskConfig) (run_id status : String) (r : TaskRun)
    → str_eq r.id run_id ≡ false
    → confirmed configs run_id status r ≡ r
unfolding confirmed
undecided_same configs run_id status r h = ground arith

change-keeps :
    (configs : List TaskConfig) (c : Change) (run_id : String) (table : List TaskRun) (r : TaskRun)
    → awaits_confirmation configs r ≡ true
    → IsUndecided r c
    → find_run run_id table ≡ some r
    → find_run run_id (change configs c table) ≡ some r
unfolding change reconcile_timeouts_per_task prune_runs set_confirm_status
change-keeps configs (written w) run_id table r h u e =
    write-keeps w run_id table r (awaiting_inactive configs r h) e
change-keeps configs (timeouts mtime now) run_id table r h u e =
    sweep-keeps (verdict_of mtime now configs) now (retain (λ x. is_active x.state) table) table
      run_id r (awaiting_inactive configs r h) e
change-keeps configs (retention task_id keep) run_id table r h u e =
    find_run-retain (λ x. not (is_pruned configs task_id (newest_runs task_id keep table) x)) run_id
      table r (exempt configs task_id (newest_runs task_id keep table) r h) e
change-keeps configs (decided other status) run_id table r h u e =
    find_run-map (confirmed configs other status) run_id table r (confirmed-id configs other status)
      (undecided_same configs other status r u) e

-- A run that waits for confirmation stays in the table as it is, whatever is claimed, finished,
-- reconciled, timed out, pruned and decided on other runs, until there is a decision on it.
pub awaiting_run_stays :
    (configs : List TaskConfig) (cs : List Change) (run_id : String) (table : List TaskRun)
    (r : TaskRun)
    → awaits_confirmation configs r ≡ true
    → All (IsUndecided r) cs
    → find_run run_id table ≡ some r
    → find_run run_id (change_all configs cs table) ≡ some r
unfolding change_all
awaiting_run_stays configs [] run_id table r h u e = e
awaiting_run_stays configs (c ∷ cs) run_id table r h (u, us) e =
    awaiting_run_stays configs cs run_id (change configs c table) r h us
      (change-keeps configs c run_id table r h u e)
