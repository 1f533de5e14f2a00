-- ===== src/Inputs.antt =====
-- What a websocket client, the scheduler or a watchdog sends to a session's process:
-- src/session_manager.rs `SessionInput`. The bytes of a terminal are numbers.
use zeromux.PromptQueue.{QueueMode}
use zeromux.Prelude.{ℕ, String, Option, List, Text}

pub data SessionInput : Type 0 where
  pty_data : List ℕ → SessionInput
  pty_resize : ℕ → ℕ → SessionInput
  prompt : Text → Option String → Option String → SessionInput
  cancel : SessionInput
  interrupt_turn : SessionInput
  set_queue_mode : QueueMode → SessionInput
  timeout_kill : Option String → SessionInput
  approval_reply : String → String → SessionInput
