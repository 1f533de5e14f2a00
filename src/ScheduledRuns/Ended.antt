-- ===== src/ScheduledRuns/Ended.antt =====
-- A run that has ended stays as it ended.
use mathlib.Core.Bool.{false≢true}
use zeromux.Prelude.{
  ℕ, ◌≡◌, sym, ap, ◌∙◌, String, str_eq, Bool, true, false, ◌&&◌, Option, none, some, List, [], ◌∷◌,
  ◌++◌, map, retain, any, arith, All, if_cases,
}
use zeromux.ScheduledRuns.{
  TaskRun, is_active, claim_run, conflicts, inserted, Update, set_run_state, set_row,
  abort_active_run_for_session, abort_row, reconcile_orphans, orphan_row,
}
use zeromux.ScheduledRuns.Awaiting.{Change, written, timeouts, retention, decided, change}
use zeromux.ScheduledRuns.Claims.{Write, claim, set_state, session_removed, orphans, write}
use zeromux.ScheduledRuns.Reconcile.{
  TaskConfig, timed_out, abort_stale, sweep, verdict_of, reconcile_timeouts_per_task,
  awaits_confirmation, confirmed, set_confirm_status, prune_runs, delete_config_runs,
}

-- What the program does to the table: the changes that a waiting run stands, and that its task is deleted.
pub data Step : Type 0 where
  changed : Change → Step
  task_deleted : String → Step

module _ (configs : List TaskConfig) where
  unfoldable pub step : Step → List TaskRun → List TaskRun
  step (changed c) table = change configs c table
  step (task_deleted task_id) table = delete_config_runs task_id table

  unfoldable pub step_all : List Step → List TaskRun → List TaskRun
  unfolding step
  step_all [] table = table
  step_all (s ∷ ss) table = step_all ss (step s table)

-- The row is the run as it ended, but for what a human has decided on it since.
abbrev pub IsAsEnded : TaskRun → TaskRun → Type 0
IsAsEnded r x = (status : Option String) × (x ≡ record r { confirm_status = status })

-- The rows with the run's id, of which there may be none.
abbrev pub StaysEnded : TaskRun → List TaskRun → Type 0
StaysEnded r = All (λ x. str_eq x.id r.id ≡ true → IsAsEnded r x)

-- A new run has an id of its own.
abbrev pub IsNotClaimed : String → Step → Type 0
IsNotClaimed run_id (changed (written (claim run))) = str_eq run.id run_id ≡ false
IsNotClaimed run_id _ = Unit

module _ (r : TaskRun) (ended : is_active r.state ≡ false) where
  -- A statement that leaves the ids and the rows as they ended.
  abbrev Spares : (TaskRun → TaskRun) → Type 0
  Spares f =
      (x : TaskRun)
      → (str_eq x.id r.id ≡ true → IsAsEnded r x)
      → str_eq (f x).id r.id ≡ true
      → IsAsEnded r (f x)

  map-StaysEnded :
      (f : TaskRun → TaskRun) (table : List TaskRun)
      → Spares f
      → StaysEnded r table
      → StaysEnded r (map f table)
  map-StaysEnded f [] h k = tt
  map-StaysEnded f (x ∷ xs) h (k, ks) = (h x k, map-StaysEnded f xs h ks)

  retain-StaysEnded :
      (p : TaskRun → Bool) (table : List TaskRun)
      → StaysEnded r table
      → StaysEnded r (retain p table)
  retain-StaysEnded p [] k = tt
  retain-StaysEnded p (x ∷ xs) (k, ks) =
      let rest = retain-StaysEnded p xs ks in
      if_cases (StaysEnded r) (p x) (x ∷ retain p xs) (retain p xs) (λ _. (k, rest)) (λ _. rest)

  append-StaysEnded :
      (table : List TaskRun) (new : TaskRun)
      → str_eq new.id r.id ≡ false
      → StaysEnded r table
      → StaysEnded r (table ++ new ∷ [])
  append-StaysEnded [] new h k = (λ e. absurd (false≢true (sym h ∙ e)), tt)
  append-StaysEnded (x ∷ xs) new h (k, ks) = (k, append-StaysEnded xs new h ks)

  -- A row that a statement changes is active, and so not the run's.
  only_active-Spares :
      (f : TaskRun → TaskRun)
      → ((x : TaskRun) → (f x).id ≡ x.id)
      → ((x : TaskRun) → is_active x.state ≡ false → f x ≡ x)
      → Spares f
  only_active-Spares f ids fixed x k e =
      let (status, same) = k (ap (λ i. str_eq i r.id) (sym (ids x)) ∙ e) in
      (status, fixed x (ap (λ y. is_active y.state) same ∙ ended) ∙ same)

  set_run_state-StaysEnded :
      (i : String) (u : Update) (table : List TaskRun)
      → StaysEnded r table
      → StaysEnded r (set_run_state i u table)
  unfolding set_run_state set_row
  set_run_state-StaysEnded i u table k =
      map-StaysEnded (set_row i u) table
        (only_active-Spares (set_row i u) (λ x. ground arith) (λ x. λ h. ground (arith, h))) k

  abort_stale-StaysEnded :
      (v : Option String) (i : String) (now : ℕ) (table : List TaskRun)
      → StaysEnded r table
      → StaysEnded r (abort_stale v i now table)
  abort_stale-StaysEnded none i now table k = k
  abort_stale-StaysEnded (some kind) i now table k =
      set_run_state-StaysEnded i (timed_out kind now) table k

  sweep-StaysEnded :
      (v : TaskRun → Option String) (now : ℕ) (runs table : List TaskRun)
      → StaysEnded r table
      → StaysEnded r (sweep v now runs table).0
  unfolding sweep
  sweep-StaysEnded v now [] table k = k
  sweep-StaysEnded v now (x ∷ xs) table k =
      sweep-StaysEnded v now xs (abort_stale (v x) x.id now table)
        (abort_stale-StaysEnded (v x) x.id now table k)

  write-StaysEnded :
      (w : Write) (table : List TaskRun)
      → IsNotClaimed r.id (changed (written w))
      → StaysEnded r table
      → StaysEnded r (write w table)
  unfolding write claim_run abort_active_run_for_session reconcile_orphans abort_row orphan_row
      inserted
  write-StaysEnded (claim run) table h k =
      if_cases (λ (p : List TaskRun × Bool). StaysEnded r p.0) (any (conflicts run) table)
        (table, false) (table ++ inserted run ∷ [], true) (λ _. k)
        (λ _. append-StaysEnded table (inserted run) h k)
  write-StaysEnded (set_state i u) table h k = set_run_state-StaysEnded i u table k
  write-StaysEnded (session_removed sid kind now) table h k =
      map-StaysEnded (abort_row sid kind now) table
        (only_active-Spares (abort_row sid kind now) (λ x. ground arith)
          (λ x. λ e. ground (arith, e)))
        k
  write-StaysEnded (orphans cutoff now) table h k =
      map-StaysEnded (orphan_row cutoff now) table
        (only_active-Spares (orphan_row cutoff now) (λ x. ground arith)
          (λ x. λ e. ground (arith, e)))
        k

  confirmed-Spares :
      (configs : List TaskConfig) (run_id status : String)
      → Spares (confirmed configs run_id status)
  unfolding confirmed
  confirmed-Spares configs run_id status x k =
      if_cases (λ y. str_eq y.id r.id ≡ true → IsAsEnded r y)
        (str_eq x.id run_id && awaits_confirmation configs x)
        (record x { confirm_status = some status }) x
        (λ _. λ e. (
          some status,
          ap {A = TaskRun} {B = TaskRun} (λ y. record y { confirm_status = some status }) (k e).1,
        ))
        (λ _. k)

  step-StaysEnded :
      (configs : List TaskConfig) (s : Step) (table : List TaskRun)
      → IsNotClaimed r.id s
      → StaysEnded r table
      → StaysEnded r (step configs s table)
  unfolding step change reconcile_timeouts_per_task prune_runs set_confirm_status delete_config_runs
  step-StaysEnded configs (changed (written w)) table h k = write-StaysEnded w table h k
  step-StaysEnded configs (changed (timeouts mtime now)) table h k =
      sweep-StaysEnded (verdict_of mtime now configs) now (retain (λ x. is_active x.state) table)
        table k
  step-StaysEnded configs (changed (retention task_id keep)) table h k = retain-StaysEnded _ table k
  step-StaysEnded configs (changed (decided run_id status)) table h k =
      map-StaysEnded (confirmed configs run_id status) table
        (confirmed-Spares configs run_id status) k
  step-StaysEnded configs (task_deleted task_id) table h k = retain-StaysEnded _ table k

-- If a run has ended and its row is the only one with its id, then after any claims of other runs, states
-- that are set, sessions removed, orphans reconciled, rounds of the watchdog, retentions, decisions of
-- humans and tasks deleted, in any order, every row with its id is the run as it ended, but for its
-- confirmation: the first writer of a terminal state wins, and the row can only be deleted.
pub ended_run_stays :
    (configs : List TaskConfig) (ss : List Step) (r : TaskRun) (table : List TaskRun)
    → is_active r.state ≡ false
    → All (IsNotClaimed r.id) ss
    → StaysEnded r table
    → StaysEnded r (step_all configs ss table)
unfolding step_all
ended_run_stays configs [] r table h n k = k
ended_run_stays configs (s ∷ ss) r table h (n, ns) k =
    ended_run_stays configs ss r (step configs s table) h ns
      (step-StaysEnded r h configs s table n k)
