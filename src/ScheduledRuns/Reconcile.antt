-- ===== src/ScheduledRuns/Reconcile.antt =====
-- src/scheduled_tasks.rs: the watchdog's timeouts, the runs that wait for a human's confirmation, and the
-- retention. The time of change of a run's event file is a parameter; its folder is not modelled.
use zeromux.Prelude.{
  ℕ, ◌+◌, ◌*◌, String, str_eq, Bool, true, false, not, ◌&&◌, ◌||◌, Option, none, some, List, [],
  ◌∷◌, ◌++◌, map, any, find, retain, take, leb, ltb, is_none, unwrap_or, if◌then◌else◌,
}
use zeromux.ScheduledRuns.{
  RunState, claimed, running, succeeded, failed, aborted, skipped, TaskRun, is_active, Update,
  set_run_state,
}

-- The columns of `agent_runs_config` that these statements read.
pub record TaskConfig : Type 0 where
  pub id : String
  pub owner_id : String
  pub side_effects : Bool
  pub max_runtime_min : Option ℕ
  pub idle_timeout_min : Option ℕ

-- Sums on the right of a comparison in place of a difference on its left, which may be negative.
unfoldable pub stale_verdict : ℕ → ℕ → Option ℕ → ℕ → ℕ → Option String
stale_verdict now started last_activity idle_timeout_min max_runtime_min =
    let last = unwrap_or last_activity started in
    if leb (last + idle_timeout_min * 60000) now
    then some "idle_timeout"
    else if ltb (started + max_runtime_min * 60000) now
    then some "watchdog_timeout"
    else none

-- JOIN agent_runs_config c ON c.id = r.task_id.
abbrev pub config_of : List TaskConfig → TaskRun → Option TaskConfig
config_of configs r = find (λ c. str_eq c.id r.task_id) configs

-- The verdict on one run, whatever its state; a run of no task has none.
unfoldable pub verdict_of : (String → Option ℕ) → ℕ → List TaskConfig → TaskRun → Option String
unfolding stale_verdict
verdict_of mtime now configs r = elim (config_of configs r) [
  | none ↦ none
  | some c ↦
      stale_verdict now (unwrap_or r.started_ms now) (mtime r.id) (unwrap_or c.idle_timeout_min 60)
        (unwrap_or c.max_runtime_min 300)
]

-- `set_run_state(&id, "aborted", None, None, Some(kind), Some(now_ms))`.
abbrev pub timed_out : String → ℕ → Update
timed_out kind now = record {
  state = aborted;
  session_id = none;
  verdict = none;
  failure_kind = some kind;
  ended_ms = some now;
}

abbrev session_list : Option String → List String
session_list none = []
session_list (some sid) = sid ∷ []

-- A stale candidate is aborted.
abbrev pub abort_stale : Option String → String → ℕ → List TaskRun → List TaskRun
abort_stale none run_id now table = table
abort_stale (some kind) run_id now table = set_run_state run_id (timed_out kind now) table

abbrev to_kill : Option String → Option String → List String
to_kill none session_id = []
to_kill (some kind) session_id = session_list session_id

-- The loop over the candidates: the rows, and the sessions to kill.
unfoldable pub sweep :
    (TaskRun → Option String) → ℕ → List TaskRun → List TaskRun → List TaskRun × List String
sweep verdict now [] table = (table, [])
sweep verdict now (r ∷ rs) table =
    let (swept, kills) = sweep verdict now rs (abort_stale (verdict r) r.id now table) in
    (swept, to_kill (verdict r) r.session_id ++ kills)

unfoldable pub reconcile_timeouts_per_task :
    (String → Option ℕ) → ℕ → List TaskConfig → List TaskRun → List TaskRun × List String
unfolding verdict_of sweep
reconcile_timeouts_per_task mtime now configs table =
    sweep (verdict_of mtime now configs) now (retain (λ r. is_active r.state) table) table

abbrev is_aborted : RunState → Bool
is_aborted aborted = true
is_aborted claimed = false
is_aborted running = false
is_aborted succeeded = false
is_aborted failed = false
is_aborted skipped = false

-- failure_kind IN (…).
abbrev is_unknown_end : Option String → Bool
is_unknown_end none = false
is_unknown_end (some kind) =
    str_eq kind "watchdog_timeout" || str_eq kind "orphaned_restart" || str_eq kind "idle_timeout"

abbrev is_side_effecting : List TaskConfig → TaskRun → Bool
is_side_effecting configs r = any (λ c. str_eq c.id r.task_id && c.side_effects) configs

-- The predicate of the confirmation queue, `confirmation_queue` and its like.
unfoldable pub awaits_confirmation : List TaskConfig → TaskRun → Bool
awaits_confirmation configs r =
    is_aborted r.state
    && (is_unknown_end r.failure_kind && (is_none r.confirm_status && is_side_effecting configs r))

unfoldable pub confirmed : List TaskConfig → String → String → TaskRun → TaskRun
unfolding awaits_confirmation
confirmed configs run_id status r =
    if str_eq r.id run_id && awaits_confirmation configs r
    then record r { confirm_status = some status }
    else r

-- The table, and whether this call set the status.
unfoldable pub set_confirm_status :
    List TaskConfig → String → String → List TaskRun → List TaskRun × Bool
unfolding confirmed awaits_confirmation
set_confirm_status configs run_id status table = (
  map (confirmed configs run_id status) table,
  any (λ r. str_eq r.id run_id && awaits_confirmation configs r) table,
)

insert_newest : TaskRun → List TaskRun → List TaskRun
insert_newest r [] = r ∷ []
insert_newest r (x ∷ xs) =
    let rest = insert_newest r xs in
    if ltb r.scheduled_for_ms x.scheduled_for_ms then x ∷ rest else r ∷ x ∷ xs

-- ORDER BY scheduled_for_ms DESC; a task has no two runs for one instant.
newest_first : List TaskRun → List TaskRun
unfolding insert_newest
newest_first [] = []
newest_first (r ∷ rs) = insert_newest r (newest_first rs)

abbrev of_task : String → TaskRun → Bool
of_task task_id r = str_eq r.task_id task_id

unfoldable pub newest_runs : String → ℕ → List TaskRun → List TaskRun
unfolding newest_first
newest_runs task_id keep table = take keep (newest_first (retain (of_task task_id) table))

abbrev pub has_run : List TaskRun → String → Bool
has_run runs id = any (λ r. str_eq r.id id) runs

unfoldable pub is_pruned : List TaskConfig → String → List TaskRun → TaskRun → Bool
unfolding awaits_confirmation
is_pruned configs task_id kept r =
    of_task task_id r && (not (awaits_confirmation configs r) && not (has_run kept r.id))

-- The ids are a primary key, so the rows that are deleted by their ids are those that are selected.
unfoldable pub prune_runs : List TaskConfig → String → ℕ → List TaskRun → List TaskRun
unfolding is_pruned newest_runs
prune_runs configs task_id keep table =
    retain (λ r. not (is_pruned configs task_id (newest_runs task_id keep table) r)) table

-- `delete_config`, as far as the rows of the runs go.
unfoldable pub delete_config_runs : String → List TaskRun → List TaskRun
delete_config_runs task_id table = retain (λ r. not (of_task task_id r)) table
