-- ===== src/ScheduledRuns.antt =====
-- src/scheduled_tasks.rs: the table `agent_task_runs` and its writers. The table is the list of its
-- rows in the order of their rowid, which is the order of insertion; a statement of SQL is a function
-- on it. The columns of replays and snapshots are not kept.
pub mod Claims
pub mod Ended
pub mod Reconcile
pub mod Awaiting
pub mod Timeouts
use zeromux.Prelude.{
  ℕ, String, str_eq, Bool, true, false, not, ◌&&◌, ◌||◌, Option, none, some, List, [], ◌∷◌, ◌++◌,
  map, any, find, retain, Text, if◌then◌else◌, ◌==◌, ltb,
}

pub data RunState : Type 0 where
  claimed running succeeded failed aborted skipped : RunState

pub record TaskRun : Type 0 where
  pub id : String
  pub task_id : String
  pub scheduled_for_ms : ℕ
  pub state : RunState
  pub session_id : Option String
  pub verdict : Option Text
  pub failure_kind : Option String
  pub started_ms : Option ℕ
  pub ended_ms : Option ℕ
  pub confirm_status : Option String

-- `state IN ('claimed','running')`.
abbrev pub is_active : RunState → Bool
is_active claimed = true
is_active running = true
is_active succeeded = false
is_active failed = false
is_active aborted = false
is_active skipped = false

abbrev coalesce : {A : Type 0} → Option A → Option A → Option A
coalesce none b = b
coalesce (some a) b = some a

-- PRIMARY KEY (id), UNIQUE (task_id, scheduled_for_ms).
conflicts : TaskRun → TaskRun → Bool
conflicts run r =
    str_eq r.id run.id || str_eq r.task_id run.task_id && r.scheduled_for_ms == run.scheduled_for_ms

-- The columns that the statement gives; the others are NULL.
inserted : TaskRun → TaskRun
inserted run = record run {
  state = claimed;
  session_id = none;
  verdict = none;
  failure_kind = none;
  ended_ms = none;
  confirm_status = none;
}

-- INSERT OR IGNORE: the table, and whether this caller inserted.
unfoldable pub claim_run : TaskRun → List TaskRun → List TaskRun × Bool
unfolding conflicts inserted
claim_run run table =
    if any (conflicts run) table then (table, false) else (table ++ inserted run ∷ [], true)

-- The new values of a row; a column that is not given stays.
pub record Update : Type 0 where
  pub state : RunState
  pub session_id : Option String
  pub verdict : Option Text
  pub failure_kind : Option String
  pub ended_ms : Option ℕ

updated : Update → TaskRun → TaskRun
updated u r = record r {
  state = u.state;
  session_id = coalesce u.session_id r.session_id;
  verdict = coalesce u.verdict r.verdict;
  failure_kind = coalesce u.failure_kind r.failure_kind;
  ended_ms = coalesce u.ended_ms r.ended_ms;
}

-- The row that `set_run_state` writes: the one with the id, while it is active.
set_row : String → Update → TaskRun → TaskRun
unfolding updated
set_row run_id u r = if str_eq r.id run_id && is_active r.state then updated u r else r

unfoldable pub set_run_state : String → Update → List TaskRun → List TaskRun
unfolding set_row
set_run_state run_id u table = map (set_row run_id u) table

is_bound : String → Option String → Bool
is_bound sid none = false
is_bound sid (some s) = str_eq s sid

abort_row : String → String → ℕ → TaskRun → TaskRun
unfolding is_bound
abort_row sid kind now r =
    if is_bound sid r.session_id && is_active r.state
    then record r {
      state = aborted;
      failure_kind = coalesce r.failure_kind (some kind);
      ended_ms = some now;
    }
    else r

unfoldable pub abort_active_run_for_session : String → String → ℕ → List TaskRun → List TaskRun
unfolding abort_row
abort_active_run_for_session sid kind now table = map (abort_row sid kind now) table

-- `started_ms < cutoff`, which a NULL on the left does not satisfy; no cutoff takes every row.
is_older : Option ℕ → Option ℕ → Bool
is_older none started = true
is_older (some cutoff) none = false
is_older (some cutoff) (some started) = ltb started cutoff

orphan_kind : Option ℕ → String
orphan_kind none = "orphaned_restart"
orphan_kind (some cutoff) = "watchdog_timeout"

orphan_row : Option ℕ → ℕ → TaskRun → TaskRun
unfolding is_older orphan_kind
orphan_row cutoff now r =
    if is_active r.state && is_older cutoff r.started_ms
    then record r { state = aborted; failure_kind = some (orphan_kind cutoff); ended_ms = some now }
    else r

-- Without a cutoff at startup, with one in the watchdog.
unfoldable pub reconcile_orphans : Option ℕ → ℕ → List TaskRun → List TaskRun
unfolding orphan_row
reconcile_orphans cutoff now table = map (orphan_row cutoff now) table

active_of : String → TaskRun → Bool
active_of task_id r = str_eq r.task_id task_id && is_active r.state

unfoldable pub active_states_for_task : String → List TaskRun → List RunState
unfolding active_of
active_states_for_task task_id table = map (λ r. r.state) (retain (active_of task_id) table)

unfoldable pub should_skip_overlap : List RunState → Bool
should_skip_overlap states = any is_active states

is_winner : String → Option TaskRun → Bool
is_winner run_id none = false
is_winner run_id (some r) = str_eq r.id run_id

-- ORDER BY rowid ASC LIMIT 1.
unfoldable pub claim_won : String → String → List TaskRun → Bool
unfolding active_of is_winner
claim_won task_id run_id table = is_winner run_id (find (active_of task_id) table)
