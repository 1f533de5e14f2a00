-- ===== src/Acp.antt =====
-- src/acp/process.rs: the typed events that the process layer hands to a fan-out. A JSON value is
-- the text that it is printed as. A text that the code walks is a list of code points, a tag or an
-- id is a `String`.
pub mod Format
pub mod Json
use zeromux.Prelude.{
  ℕ, String, str_eq, Bool, true, false, not, Option, none, some, Text, if◌then◌else◌,
}

pub record ContentBlock : Type 0 where
  pub block_type : String
  pub turn_id : ℕ
  pub text : Option Text
  pub name : Option Text
  pub input : Option Text
  pub streaming : Option Bool
  pub summary : Option Text

pub record TurnResult : Type 0 where
  pub text : Text
  pub turn_id : ℕ
  pub session_id : String
  pub cost_usd : Option ℕ
  pub tokens_in : Option ℕ
  pub tokens_out : Option ℕ

pub data AcpEvent : Type 0 where
  system : String → Option String → Option ℕ → AcpEvent
  content_block : ContentBlock → AcpEvent
  turn_result : TurnResult → AcpEvent
  user_prompt : Text → ℕ → Option String → AcpEvent
  error : Text → AcpEvent
  exit : ℕ → AcpEvent
  approval : String → String → Option Text → Option Text → String → AcpEvent
  context_usage : ℕ → ℕ → AcpEvent
  peer_message : String → Text → ℕ → AcpEvent
  turn_origin : String → AcpEvent
  notice : Text → String → AcpEvent
  stdin_echo : AcpEvent

-- `matches!(evt, Result | Error | Exit)`, the test for the end of a turn.
unfoldable pub is_boundary : AcpEvent → Bool
is_boundary (turn_result r) = true
is_boundary (error m) = true
is_boundary (exit c) = true
is_boundary _ = false

-- session_manager.rs `with_turn_id`.
unfoldable pub with_turn_id : AcpEvent → ℕ → AcpEvent
with_turn_id (content_block b) tid = content_block (record b { turn_id = tid })
with_turn_id (turn_result r) tid = turn_result (record r { turn_id = tid })
with_turn_id (peer_message from text _) tid = peer_message from text tid
with_turn_id evt _ = evt

-- session_manager.rs `is_ephemeral_event`.
unfoldable pub is_ephemeral_event : AcpEvent → Bool
is_ephemeral_event (system subtype _ _) = str_eq subtype "queued"
is_ephemeral_event _ = false

-- session_manager.rs `claude_session_id`.
unfoldable pub claude_session_id : AcpEvent → Option String
claude_session_id (system _ (some s) _) = some s
claude_session_id (turn_result r) = if str_eq r.session_id "" then none else some r.session_id
claude_session_id _ = none

-- crew_process.rs `crew_event_is_forward_progress`: the gateway's heartbeat is no progress.
unfoldable pub crew_event_is_forward_progress : AcpEvent → Bool
crew_event_is_forward_progress (system subtype _ _) = not (str_eq subtype "status")
crew_event_is_forward_progress _ = true

-- session_manager.rs `emit`: whether an event resets the silence clock.
unfoldable pub bumps_activity : AcpEvent → Bool
unfolding crew_event_is_forward_progress
bumps_activity (content_block b) = not (str_eq b.block_type "error")
bumps_activity (user_prompt _ _ _) = false
bumps_activity evt = crew_event_is_forward_progress evt
