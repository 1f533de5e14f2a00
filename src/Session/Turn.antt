-- ===== src/Session/Turn.antt =====
-- What the manager does to a session when its fan-out reports: turns, metrics, posture, tokens.
pub mod Ring
use zeromux.Posture
use zeromux.Posture.{Posture, PostureDelta}
use zeromux.Prelude.{
  ℕ, ◌+◌, ◌%◌, ◌^◌, String, str_eq, Bool, true, false, not, ◌&&◌, none, some, [], ◌∷◌, ◌++◌,
  if◌then◌else◌, ◌==◌, unwrap_or, retain,
}
use zeromux.PromptQueue.{QueueMode}
use zeromux.RunMetrics.{RunMetric, RunOutcome, pop_front_to}
use zeromux.Session.{Session, RunningProcess, ResumeToken, claude, codex, tmux, crew, idle_meta}
use zeromux.Turns.{TurnState, idle, running}

-- The process's part of `apply_turn`.
process_turn : ℕ → TurnState → ℕ → RunningProcess → RunningProcess
process_turn now running seq rp = record rp {
  turn_state = running;
  turn_started_ms = some now;
  turn_seq = seq;
}
process_turn now idle seq rp = record rp { turn_state = idle; turn_started_ms = none }

abbrev is_running : TurnState → Bool
is_running running = true
is_running idle = false

-- Running always counts; Idle only for the live turn, and once. `turns_completed` is a u32.
unfoldable pub apply_turn : ℕ → TurnState → ℕ → Session → Session
unfolding process_turn
apply_turn now state seq s = elim s.running [
  | none ↦ record s { last_activity_ms = now }
  | some rp ↦ elim state [
    | running ↦ record s {
      last_activity_ms = now;
      running = some (process_turn now running seq rp);
      posture = record s.posture { approval_ids = []; turn_snippet = none };
    }
    | idle ↦
        if rp.turn_seq == seq && is_running rp.turn_state
        then record s {
          last_activity_ms = now;
          running = some (process_turn now idle seq rp);
          turns_completed = (s.turns_completed + 1) % 2 ^ 32;
        }
        else record s { last_activity_ms = now }
  ]
]

-- The in-memory half of `settle_posture`; the write to the store follows outside the lock.
unfoldable pub settle_posture : ℕ → RunOutcome → Session → Session
settle_posture now o s = record s { posture = Posture.settle o now s.posture }

unfoldable pub approval_resolved : ℕ → String → Session → Session
approval_resolved now id s = record s {
  posture = record s.posture {
    approval_ids = retain (λ x. not (str_eq x id)) s.posture.approval_ids;
  };
  last_activity_ms = now;
}

unfoldable pub mark_fanout_ended : Session → Session
mark_fanout_ended s = record s {
  running = none;
  status = idle_meta;
  posture = record s.posture { current_step = none; approval_ids = [] };
}

unfoldable pub mark_queue_mode : QueueMode → Session → Session
mark_queue_mode mode s = elim s.running [
  | none ↦ s
  | some rp ↦ record s { running = some (record rp { queue_mode = mode }) }
]

abbrev pub metrics_cap : ℕ
metrics_cap = 50

-- The ring of the last fifty runs, and the totals that it does not limit.
unfoldable pub record_run_metric : RunMetric → Session → Session
record_run_metric m s = record s {
  run_metrics = pop_front_to metrics_cap (s.run_metrics ++ m ∷ []);
  lifetime_turns = s.lifetime_turns + 1;
  lifetime_duration_ms = s.lifetime_duration_ms + m.duration_ms;
  lifetime_cost_usd = s.lifetime_cost_usd + unwrap_or m.cost_usd 0;
}

unfoldable pub token_eq : ResumeToken → ResumeToken → Bool
token_eq (claude a) (claude b) = str_eq a b
token_eq (codex a) (codex b) = str_eq a b
token_eq (tmux a) (tmux b) = str_eq a b
token_eq (crew a) (crew b) = str_eq a b
token_eq _ _ = false

-- The session, and whether the token is written to the store.
unfoldable pub set_resume_token : ResumeToken → Session → Session × Bool
unfolding token_eq
set_resume_token token s = elim s.resume_token [
  | none ↦ (record s { resume_token = some token }, true)
  | some old ↦
      if token_eq old token then (s, false) else (record s { resume_token = some token }, true)
]

unfoldable pub turn_is_running : Session → Bool
turn_is_running s = elim s.running [ none ↦ false | some rp ↦ is_running rp.turn_state ]
