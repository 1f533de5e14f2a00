-- ===== src/ScheduledRuns/Claims.antt =====
-- Who owns a run of a task, and that a writer of states keeps the runs that have ended.
use zeromux.Prelude.{
  ℕ, ◌≡◌, refl, String, str_eq, eq_iff, Bool, true, false, Option, some, List, [], ◌∷◌, ◌++◌, map,
  any, find, arith, if_cases, Bool-cases, inl, inr, All, ◌&&◌, ap,
}
use zeromux.ScheduledRuns.{
  TaskRun, is_active, conflicts, inserted, claim_run, Update, set_run_state, set_row,
  abort_active_run_for_session, abort_row, reconcile_orphans, orphan_row, active_of,
  active_states_for_task, should_skip_overlap, is_winner, claim_won,
}

-- The writers of a run's state.
pub data Write : Type 0 where
  claim : TaskRun → Write
  set_state : String → Update → Write
  session_removed : String → String → ℕ → Write
  orphans : Option ℕ → ℕ → Write

unfoldable pub write : Write → List TaskRun → List TaskRun
write (claim run) table = (claim_run run table).0
write (set_state run_id u) table = set_run_state run_id u table
write (session_removed sid kind now) table = abort_active_run_for_session sid kind now table
write (orphans cutoff now) table = reconcile_orphans cutoff now table

abbrev has_id : String → TaskRun → Bool
has_id run_id r = str_eq r.id run_id

unfoldable pub find_run : String → List TaskRun → Option TaskRun
find_run run_id table = find (has_id run_id) table

-- A statement that keeps the ids and the rows that are not active keeps such a row where it is.
pub find_run-map :
    (f : TaskRun → TaskRun) (run_id : String) (table : List TaskRun) (r : TaskRun)
    → ((x : TaskRun) → (f x).id ≡ x.id)
    → f r ≡ r
    → find_run run_id table ≡ some r
    → find_run run_id (map f table) ≡ some r
unfolding find_run
find_run-map f run_id [] r ids fixed e = e
find_run-map f run_id (x ∷ xs) r ids fixed e =
    ground (arith, ids x, fixed, find_run-map f run_id xs r ids fixed)

find_run-append :
    (run_id : String) (table more : List TaskRun) (r : TaskRun)
    → find_run run_id table ≡ some r
    → find_run run_id (table ++ more) ≡ some r
unfolding find_run
find_run-append run_id [] more r e = cc
find_run-append run_id (x ∷ xs) more r e = ground (arith, find_run-append run_id xs more r)

pub write-keeps :
    (w : Write) (run_id : String) (table : List TaskRun) (r : TaskRun)
    → is_active r.state ≡ false
    → find_run run_id table ≡ some r
    → find_run run_id (write w table) ≡ some r
unfolding write claim_run set_run_state abort_active_run_for_session reconcile_orphans set_row
    abort_row orphan_row inserted conflicts
write-keeps (claim run) run_id table r h e =
    if_cases (λ (p : List TaskRun × Bool). find_run run_id p.0 ≡ some r) (any (conflicts run) table)
      (table, false) (table ++ inserted run ∷ [], true) (λ taken. e)
      (λ free. find_run-append run_id table (inserted run ∷ []) r e)
write-keeps (set_state i u) run_id table r h e =
    find_run-map (set_row i u) run_id table r (λ x. ground arith) (ground arith) e
write-keeps (session_removed sid kind now) run_id table r h e =
    find_run-map (abort_row sid kind now) run_id table r (λ x. ground arith) (ground arith) e
write-keeps (orphans cutoff now) run_id table r h e =
    find_run-map (orphan_row cutoff now) run_id table r (λ x. ground arith) (ground arith) e

-- The oldest active run of the task: it is in the table, and none before it is one.
abbrev pub IsOldestActive : String → List TaskRun → TaskRun → Type 0
IsOldestActive task_id table r =
    (before : List TaskRun) × (after : List TaskRun) × (table ≡ before ++ r ∷ after)
    × (r.task_id ≡ task_id)
    × (is_active r.state ≡ true)
    × All (λ x. (str_eq x.task_id task_id && is_active x.state) ≡ false) before

oldest_active :
    (task_id : String) (table : List TaskRun)
    → should_skip_overlap (active_states_for_task task_id table) ≡ true
    → (r : TaskRun) × (find (active_of task_id) table ≡ some r) × IsOldestActive task_id table r
unfolding should_skip_overlap active_states_for_task active_of
oldest_active task_id [] h = cc
oldest_active task_id (x ∷ xs) h = elim (Bool-cases (active_of task_id x)) [
  | inl e ↦ (
    x,
    ground (arith, e),
    ([], xs, refl, (eq_iff x.task_id task_id).0 (ground (arith, e)), ground (arith, e), tt),
  )
  | inr e ↦
      let (r, found, (before, after, whole, own, active, first)) =
        oldest_active task_id xs (ground (arith, e, h)) in
      (
        r,
        ground (arith, e, found),
        (x ∷ before, after, ap (λ t. x ∷ t) whole, own, active, (e, first)),
      )
]

-- While a task has an active run, which shuts the overlap guard, exactly one run of the task has won its
-- claim, however many were claimed at once: the oldest of its runs that are claimed or running.
pub claim_won_unique :
    (task_id : String) (table : List TaskRun)
    → should_skip_overlap (active_states_for_task task_id table) ≡ true
    → (winner : TaskRun) × IsOldestActive task_id table winner
      × ((other : String) → claim_won task_id other table ≡ str_eq winner.id other)
unfolding claim_won is_winner
claim_won_unique task_id table h =
    let (r, found, oldest) = oldest_active task_id table h in
    (r, oldest, λ other. ground (arith, found))
