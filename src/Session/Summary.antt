-- ===== src/Session/Summary.antt =====
-- src/session_manager.rs `running_summary`: what the auto-updater asks of the manager.
use zeromux.Prelude.{ℕ, Bool, true, false, ◌&&◌, none, some, List, count_if}
use zeromux.ScheduledRuns.{TaskRun, is_active}
use zeromux.Session.{
  Session, SessionType, tmux_session, claude_session, codex_session, crew_session,
}
use zeromux.Turns.{running, idle}

pub record RunningSummary : Type 0 where
  pub interactive : ℕ
  pub scheduled : ℕ
  pub scheduled_read_failed : Bool

-- The table of the runs as the manager reads it: no store is wired, the read fails, or its rows.
pub data RunTable : Type 0 where
  not_wired unreadable : RunTable
  rows : List TaskRun → RunTable

unfoldable pub active_run_count : List TaskRun → ℕ
active_run_count = count_if (λ r. is_active r.state)

-- A count that cannot be read stands for a run that may be in flight.
unfoldable pub scheduled_count_fail_closed : RunTable → ℕ
unfolding active_run_count
scheduled_count_fail_closed not_wired = 0
scheduled_count_fail_closed unreadable = 1
scheduled_count_fail_closed (rows table) = active_run_count table

is_unreadable : RunTable → Bool
is_unreadable unreadable = true
is_unreadable not_wired = false
is_unreadable (rows table) = false

has_turns : SessionType → Bool
has_turns tmux_session = false
has_turns claude_session = true
has_turns codex_session = true
has_turns crew_session = true

turn_runs : Session → Bool
turn_runs s = elim s.running [
  | none ↦ false
  | some rp ↦ elim rp.turn_state [ running ↦ true | idle ↦ false ]
]

-- A session of an agent whose turn runs, whatever started the turn.
unfoldable pub is_interactive : Session → Bool
unfolding has_turns turn_runs
is_interactive s = has_turns s.session_type && turn_runs s

unfoldable pub running_summary : List Session → RunTable → RunningSummary
unfolding is_unreadable scheduled_count_fail_closed is_interactive
running_summary sessions table = record {
  interactive = count_if is_interactive sessions;
  scheduled = scheduled_count_fail_closed table;
  scheduled_read_failed = is_unreadable table;
}
