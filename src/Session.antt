-- ===== src/Session.antt =====
-- src/session_manager.rs `Session` and `RunningProcess`: what the manager keeps of one session. The
-- process's broadcast channel is the list of the frames sent on it, newest last; its input channel is
-- not kept.
pub mod Turn
pub mod Scrollback
pub mod Spawn
pub mod Summary
pub mod Persisted
pub mod Table
pub mod Lifecycle
use zeromux.Posture.{Posture}
use zeromux.Prelude.{ℕ, String, Bool, Option, List, Text}
use zeromux.PromptQueue.{QueueMode}
use zeromux.RunMetrics.{RunMetric}
use zeromux.Turns.{TurnState}

pub data SessionMeta : Type 0 where
  running_meta done blocked idle_meta ended : SessionMeta

pub data SessionType : Type 0 where
  tmux_session claude_session codex_session crew_session : SessionType

pub data ResumeToken : Type 0 where
  claude codex tmux crew : String → ResumeToken

pub data TmuxOrigin : Type 0 where
  own external : TmuxOrigin

pub record CrewMeta : Type 0 where
  pub mode : String
  pub agent : String
  pub origin : String

pub record RunningProcess : Type 0 where
  pub event_tx : List Text
  pub pty_pid : Option ℕ
  pub turn_state : TurnState
  pub turn_started_ms : Option ℕ
  pub turn_seq : ℕ
  pub queue_mode : QueueMode

pub record Session : Type 0 where
  pub id : String
  pub name : String
  pub session_type : SessionType
  pub cols : ℕ
  pub rows : ℕ
  pub work_dir : String
  pub owner_id : String
  pub description : String
  pub name_is_auto : Bool
  pub status : SessionMeta
  pub resume_token : Option ResumeToken
  pub tmux_origin : Option TmuxOrigin
  pub pending_kill_until : Option ℕ
  pub worktree_path : Option String
  pub created_ms : ℕ
  pub source_task_id : Option String
  pub spawning : Bool
  pub last_activity_ms : ℕ
  pub turns_completed : ℕ
  pub run_metrics : List RunMetric
  pub lifetime_turns : ℕ
  pub lifetime_duration_ms : ℕ
  pub lifetime_cost_usd : ℕ
  pub posture : Posture
  pub crew_meta : Option CrewMeta
  pub running : Option RunningProcess
  pub scrollback : List Text
  pub scrollback_bytes : ℕ
