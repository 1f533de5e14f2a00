-- ===== src/Examples/Data.antt =====
-- The data of the examples.
use zeromux.Acp.{AcpEvent, turn_result}
use zeromux.ClaudeFanout.Loop.{Message, event, input, timer}
use zeromux.ClaudeFanout.Manager.{Serializer}
use zeromux.ClaudeFanout.State.{Config}
use zeromux.Effects.{Moment}
use zeromux.Inputs.{prompt}
use zeromux.Posture.{default}
use zeromux.Prelude.{ℕ, String, true, false, none, some, List, [], ◌∷◌, codes}
use zeromux.PromptQueue.{collect}
use zeromux.RunMetrics.{RunMetric, RunOutcome, completed, errored, cancelled, build_run_metric}
use zeromux.Session.{Session, RunningProcess, claude_session, idle_meta}
use zeromux.Turns.{idle}

abbrev pub run_of : ℕ → ℕ → RunOutcome → RunMetric
run_of started ended outcome =
    build_run_metric "m" "s1" "/w" "claude-code" 1 started ended outcome none (some 3) none none

abbrev pub three_runs : List RunMetric
three_runs = run_of 0 700 completed ∷ run_of 1000 1200 errored ∷ run_of 2000 2900 cancelled ∷ []

abbrev pub config : Config
config = record {
  sid = "s1";
  agent_label = "claude-code";
  work_dir = "/w";
  is_resumed = false;
  hhmm = λ ms. none;
}

abbrev pub at : ℕ → Moment
at now = record { now = now; fresh_id = "m" }

abbrev pub result : ℕ → AcpEvent
result total = turn_result record {
  text = codes "done";
  turn_id = 0;
  session_id = "c1";
  cost_usd = some total;
  tokens_in = none;
  tokens_out = none;
}

abbrev pub typed : String → Message
typed text = input (prompt (codes text) none none)

abbrev pub scheduled : String → String → Message
scheduled rid text = input (prompt (codes text) (some rid) none)

-- A prompt, another one while it runs, its end, and the flush.
abbrev pub queued_run : List (Moment × Message)
queued_run =
    (at 0, typed "hello")
    ∷ (at 100, typed "more")
    ∷ (at 5000, event (result 7))
    ∷ (at 5500, timer)
    ∷ []

-- A scheduled run, and its end.
abbrev pub scheduled_run : List (Moment × Message)
scheduled_run = (at 0, scheduled "r1" "go") ∷ (at 5000, event (result 7)) ∷ []

abbrev pub process : RunningProcess
process = record {
  event_tx = [];
  pty_pid = none;
  turn_state = idle;
  turn_started_ms = none;
  turn_seq = 0;
  queue_mode = collect;
}

abbrev pub session : Session
session = record {
  id = "s1";
  name = "one";
  session_type = claude_session;
  cols = 80;
  rows = 24;
  work_dir = "/w";
  owner_id = "u1";
  description = "";
  name_is_auto = true;
  status = idle_meta;
  resume_token = none;
  tmux_origin = none;
  pending_kill_until = none;
  worktree_path = none;
  created_ms = 0;
  source_task_id = none;
  spawning = false;
  last_activity_ms = 0;
  turns_completed = 0;
  run_metrics = [];
  lifetime_turns = 0;
  lifetime_duration_ms = 0;
  lifetime_cost_usd = 0;
  posture = default;
  crew_meta = none;
  running = some process;
  scrollback = [];
  scrollback_bytes = 0;
}

abbrev pub serializer : Serializer
serializer = record { event_json = λ evt. some (codes "{}"); mode_json = λ mode. codes "{}" }
