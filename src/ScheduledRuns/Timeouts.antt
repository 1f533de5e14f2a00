-- ===== src/ScheduledRuns/Timeouts.antt =====
-- What the watchdog leaves, and what a retention of no runs does to the overlap guard.
use mathlib.Core.Bool.{false≢true}
use zeromux.Prelude.{
  ◌+◌, ◌*◌, ◌<◌, ◌≤◌, unwrap_or, sym, ◌∙◌, ◌⊎◌, Bool-cases, ℕ, ◌≡◌, refl, String, str_eq, eq_iff,
  true, false, not, ◌&&◌, Option, none, some, List, [], ◌∷◌, retain, arith, All, is_some, inl, inr,
}
use zeromux.ScheduledRuns.{
  TaskRun, is_active, set_run_state, set_row, active_of, active_states_for_task,
  should_skip_overlap,
}
use zeromux.ScheduledRuns.Reconcile.{
  TaskConfig, config_of, stale_verdict, timed_out, abort_stale, sweep, verdict_of,
  reconcile_timeouts_per_task, has_run, awaits_confirmation, newest_runs, is_pruned, prune_runs,
}

-- Every run that is still active has the property.
abbrev Active : (TaskRun → Type 0) → List TaskRun → Type 0
Active P = All (λ r. is_active r.state ≡ true → P r)

row_active :
    (P : TaskRun → Type 0) (i kind : String) (now : ℕ) (r : TaskRun)
    → (is_active r.state ≡ true → P r)
    → is_active (set_row i (timed_out kind now) r).state ≡ true
    → P (set_row i (timed_out kind now) r)
unfolding set_row
row_active P i kind now r h = elim (Bool-cases (str_eq r.id i && is_active r.state)) [
  | inl e ↦ rw e (λ a. absurd (false≢true a))
  | inr e ↦ rw e h
]

set_run_state-Active :
    (P : TaskRun → Type 0) (i kind : String) (now : ℕ) (table : List TaskRun)
    → Active P table
    → Active P (set_run_state i (timed_out kind now) table)
unfolding set_run_state set_row
set_run_state-Active P i kind now [] h = tt
set_run_state-Active P i kind now (r ∷ rs) (h, hs) =
    (row_active P i kind now r h, set_run_state-Active P i kind now rs hs)

abort_stale-Active :
    (P : TaskRun → Type 0) (verdict : Option String) (i : String) (now : ℕ) (table : List TaskRun)
    → Active P table
    → Active P (abort_stale verdict i now table)
abort_stale-Active P none i now table h = h
abort_stale-Active P (some kind) i now table h = set_run_state-Active P i kind now table h

str_neq_sym : (a b : String) → str_eq a b ≡ false → str_eq b a ≡ false
str_neq_sym a b h = elim (Bool-cases (str_eq b a)) [
  | inl e ↦ absurd (false≢true (sym h ∙ (eq_iff a b).1 (sym ((eq_iff b a).0 e))))
  | inr e ↦ e
]

Active-both :
    (P Q R : TaskRun → Type 0) (table : List TaskRun)
    → ((r : TaskRun) → P r → Q r → R r)
    → Active P table
    → Active Q table
    → Active R table
Active-both P Q R [] h p q = tt
Active-both P Q R (r ∷ rs) h (p, ps) (q, qs) = (λ a. h r (p a) (q a), Active-both P Q R rs h ps qs)

Active-always :
    (P : TaskRun → Type 0) (table : List TaskRun) → ((r : TaskRun) → P r) → Active P table
Active-always P [] h = tt
Active-always P (r ∷ rs) h = (λ a. h r, Active-always P rs h)

module _ (verdict : TaskRun → Option String) (now : ℕ) where
  sweep-Active :
      (P : TaskRun → Type 0) (runs table : List TaskRun)
      → Active P table
      → Active P (sweep verdict now runs table).0
  unfolding sweep
  sweep-Active P [] table h = h
  sweep-Active P (r ∷ rs) table h =
      sweep-Active P rs (abort_stale (verdict r) r.id now table)
        (abort_stale-Active P (verdict r) r.id now table h)

  -- The candidates with a verdict.
  abbrev stale_of : List TaskRun → List TaskRun
  stale_of = retain (λ r. is_some (verdict r))

  abbrev Cleared : List TaskRun → TaskRun → Type 0
  Cleared runs r = has_run runs r.id ≡ false

  row_cleared :
      (i kind : String) (r : TaskRun)
      → is_active (set_row i (timed_out kind now) r).state ≡ true
      → str_eq i (set_row i (timed_out kind now) r).id ≡ false
  unfolding set_row
  row_cleared i kind r = elim (Bool-cases (str_eq r.id i && is_active r.state)) [
    | inl e ↦ rw e (λ a. absurd (false≢true a))
    | inr e ↦ rw e (λ a. str_neq_sym r.id i (ground arith))
  ]

  aborted_cleared :
      (i kind : String) (table : List TaskRun)
      → Active (λ r. str_eq i r.id ≡ false) (set_run_state i (timed_out kind now) table)
  unfolding set_run_state set_row
  aborted_cleared i kind [] = tt
  aborted_cleared i kind (r ∷ rs) = (row_cleared i kind r, aborted_cleared i kind rs)

  -- The candidate is out of the way, stale or not.
  abort_stale_clears :
      (v : Option String) (i : String) (table : List TaskRun)
      → Active (λ x. (v ≡ none) ⊎ (str_eq i x.id ≡ false)) (abort_stale v i now table)
  abort_stale_clears none i table = Active-always _ table (λ r. inl refl)
  abort_stale_clears (some kind) i table =
      let cleared = aborted_cleared i kind table in
      Active-both (λ x. str_eq i x.id ≡ false) (λ x. str_eq i x.id ≡ false)
        (λ x. (some kind ≡ none) ⊎ (str_eq i x.id ≡ false))
        (set_run_state i (timed_out kind now) table) (λ x. λ a. λ b. inr a) cleared cleared

  sweep_clears :
      (runs table : List TaskRun)
      → Active (Cleared (stale_of runs)) (sweep verdict now runs table).0
  unfolding sweep
  sweep_clears [] table = Active-always (Cleared []) table (λ r. refl)
  sweep_clears (r ∷ rs) table =
      let next = abort_stale (verdict r) r.id now table in
      Active-both (λ x. (verdict r ≡ none) ⊎ (str_eq r.id x.id ≡ false)) (Cleared (stale_of rs))
        (Cleared (stale_of (r ∷ rs))) (sweep verdict now rs next).0 (λ x. λ a. λ b. ground arith)
        (sweep-Active (λ x. (verdict r ≡ none) ⊎ (str_eq r.id x.id ≡ false)) rs next
          (abort_stale_clears (verdict r) r.id table))
        (sweep_clears rs next)

  -- A run with a verdict is among the candidates.
  abbrev Listed : List TaskRun → TaskRun → Type 0
  Listed runs r = has_run runs r.id ≡ false → verdict r ≡ none

  candidates : List TaskRun → List TaskRun
  candidates table = stale_of (retain (λ r. is_active r.state) table)

  candidates-Listed : (table : List TaskRun) → Active (Listed (candidates table)) table
  unfolding candidates
  candidates-Listed [] = tt
  candidates-Listed (r ∷ rs) =
      let S = candidates rs in
      let T = candidates (r ∷ rs) in
      let same : str_eq r.id r.id ≡ true = (eq_iff r.id r.id).1 refl in
      (
        λ a. λ c. ground (arith, a, c, same),
        Active-both (Listed S) (Listed S) (Listed T) rs (λ x. λ p. λ q. λ c. ground (arith, c))
            (candidates-Listed rs) (candidates-Listed rs),
      )

undecided_left :
    (mtime : String → Option ℕ) (now : ℕ) (configs : List TaskConfig) (table : List TaskRun)
    → Active
        (λ r. verdict_of mtime now configs r ≡ none)
        (reconcile_timeouts_per_task mtime now configs table).0
unfolding reconcile_timeouts_per_task candidates
undecided_left mtime now configs table =
    let v = verdict_of mtime now configs in
    let runs = retain (λ r. is_active r.state) table in
    Active-both (Listed v now (candidates v now table)) (Cleared v now (candidates v now table))
      (λ r. v r ≡ none) (sweep v now runs table).0 (λ r. λ p. λ q. p q)
      (sweep-Active v now (Listed v now (candidates v now table)) runs table
        (candidates-Listed v now table))
      (sweep_clears v now runs table)

-- The run's task is configured so, and it has shown a sign of life within its idle timeout and started
-- within its longest time: in minutes, an hour and five hours where the task does not say.
abbrev pub IsInTime : (String → Option ℕ) → ℕ → TaskRun → TaskConfig → Type 0
IsInTime mtime now r c =
    let started = unwrap_or r.started_ms now in
    let last_sign = unwrap_or (mtime r.id) started in
    (now < last_sign + unwrap_or c.idle_timeout_min 60 * 60000)
    × (now ≤ started + unwrap_or c.max_runtime_min 300 * 60000)

no_verdict-IsInTime :
    (mtime : String → Option ℕ) (now : ℕ) (configs : List TaskConfig) (r : TaskRun) (c : TaskConfig)
    → config_of configs r ≡ some c
    → verdict_of mtime now configs r ≡ none
    → IsInTime mtime now r c
unfolding verdict_of stale_verdict
no_verdict-IsInTime mtime now configs r c e h = (ground (arith, e, h), ground (arith, e, h))

-- After a round of the watchdog every run that is still claimed or running, and whose task is configured,
-- has shown a sign of life within the idle timeout of its task before the round's clock, and started no
-- longer ago than the task's longest time: the sign of life is the last change of its event file, or its
-- start if there is no such file, and the timeouts are an hour and five hours where the task has none.
pub reconcile_leaves_none_stale :
    (mtime : String → Option ℕ) (now : ℕ) (configs : List TaskConfig) (table : List TaskRun)
    → All
        (λ r.
          is_active r.state ≡ true
          → (c : TaskConfig) → config_of configs r ≡ some c
          → IsInTime mtime now r c)
        (reconcile_timeouts_per_task mtime now configs table).0
reconcile_leaves_none_stale mtime now configs table =
    let left = undecided_left mtime now configs table in
    Active-both (λ r. verdict_of mtime now configs r ≡ none)
      (λ r. verdict_of mtime now configs r ≡ none)
      (λ r. (c : TaskConfig) → config_of configs r ≡ some c → IsInTime mtime now r c)
      (reconcile_timeouts_per_task mtime now configs table).0
      (λ r. λ p. λ q. λ c. λ e. no_verdict-IsInTime mtime now configs r c e p) left left

newest_none : (task_id : String) (table : List TaskRun) → newest_runs task_id 0 table ≡ []
unfolding newest_runs
newest_none task_id table = refl

active_pruned :
    (configs : List TaskConfig) (task_id : String) (r : TaskRun)
    → active_of task_id r ≡ true
    → not (is_pruned configs task_id [] r) ≡ false
unfolding is_pruned active_of awaits_confirmation
active_pruned configs task_id r h = ground arith

none_active :
    (configs : List TaskConfig) (task_id : String) (table : List TaskRun)
    → should_skip_overlap
        (active_states_for_task task_id (retain (λ r. not (is_pruned configs task_id [] r)) table))
      ≡ false
unfolding should_skip_overlap active_states_for_task
none_active configs task_id [] = refl
none_active configs task_id (r ∷ rs) =
    ground (arith, none_active configs task_id rs, active_pruned configs task_id r)

-- A retention of no runs takes the rows of the runs that are still claimed or running as well: after
-- it the overlap guard of the task is open, whatever ran.
pub prune_opens_guard :
    (configs : List TaskConfig) (task_id : String) (table : List TaskRun)
    → should_skip_overlap (active_states_for_task task_id (prune_runs configs task_id 0 table))
      ≡ false
unfolding prune_runs newest_runs
prune_opens_guard configs task_id table = none_active configs task_id table
