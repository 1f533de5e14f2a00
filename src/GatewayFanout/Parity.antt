-- ===== src/GatewayFanout/Parity.antt =====
-- `spawn_crew_fanout` and `spawn_codex_fanout` beside `spawn_acp_fanout`: where the doc comment's
-- "mirrors byte-for-byte" is true.
pub mod Events
pub mod Rounds
use zeromux.Acp.{
  AcpEvent, system, content_block, turn_result, user_prompt, error, exit, approval, context_usage,
  peer_message, turn_origin, notice, stdin_echo, is_boundary,
}
use zeromux.ClaudeFanout.Boundary as CBoundary
use zeromux.ClaudeFanout.Events as CEvents
use zeromux.ClaudeFanout.Input as CInput
use zeromux.ClaudeFanout.Ledger.{collect, collect-append}
use zeromux.ClaudeFanout.Loop as CLoop
use zeromux.ClaudeFanout.Loop.{Message, event, input, timer}
use zeromux.ClaudeFanout.State.{Config, Fanout}
use zeromux.ClaudeFanout.State as CState
use zeromux.Effects.{
  Moment, Effect, emit, log_result_event, mark_turn, mark_queue_mode, emit_queue_mode, emit_queued,
  send_prompt, interrupt_process, kill_process, push_turn_done, mark_vault_dirty, settle_posture,
  ◌>>◌, in_order, when,
}
use zeromux.GatewayFanout.Events as GEvents
use zeromux.GatewayFanout.Input as GInput
use zeromux.GatewayFanout.State.{Settings, Gateway}
use zeromux.GatewayFanout.State as GState
use zeromux.Inputs.{
  SessionInput, pty_data, pty_resize, prompt, cancel, interrupt_turn, set_queue_mode, timeout_kill,
  approval_reply,
}
use zeromux.Prelude.{
  ℕ, ◌≡◌, refl, Bool, true, false, Option, none, some, List, [], ◌∷◌, Text, String, arith,
  Bool-cases, inl, inr, ◌&&◌,
}
use zeromux.PromptQueue.{QueueMode, interrupt, passthrough, PromptQueue}
use zeromux.PromptQueue
use zeromux.Turns.{normal}

-- The calls that all three tasks make for a turn. Resume tokens, costs, titles and approvals are the
-- ones that differ.
abbrev turn_call : Effect → List Effect
turn_call (emit tid evt) = emit tid evt ∷ []
turn_call (log_result_event evt) = log_result_event evt ∷ []
turn_call (mark_turn state seq) = mark_turn state seq ∷ []
turn_call (mark_queue_mode mode) = mark_queue_mode mode ∷ []
turn_call (emit_queue_mode mode) = emit_queue_mode mode ∷ []
turn_call (emit_queued n) = emit_queued n ∷ []
turn_call (send_prompt text) = send_prompt text ∷ []
turn_call interrupt_process = interrupt_process ∷ []
turn_call kill_process = kill_process ∷ []
turn_call (push_turn_done dur) = push_turn_done dur ∷ []
turn_call mark_vault_dirty = mark_vault_dirty ∷ []
turn_call (settle_posture outcome) = settle_posture outcome ∷ []
turn_call _ = []

-- The two tasks stand at the same point of the same turns.
pub record Same (f : Fanout) (g : Gateway) : Type 0 where
  pub same_seq : f.turn_seq ≡ g.turn_seq
  pub same_running : f.local_running ≡ g.local_running
  pub same_count : f.boundary_count ≡ g.boundary_count
  pub same_queue : f.queue ≡ g.queue
  pub same_mode : f.queue_mode ≡ g.queue_mode
  pub same_starts : f.turn_starts ≡ g.turn_starts
  pub no_run : f.active_run_id ≡ none
  pub no_origin : f.pending_origin ≡ false

-- Two steps that keep the tasks together and make the same calls for their turns.
abbrev pub Together : Fanout × List Effect → Gateway × List Effect → Type 0
Together (f, es) (g, fs) = Same f g × (collect turn_call es ≡ collect turn_call fs)

pub >>-Together :
    (a b : CState.Action) (c d : GState.Action) (f : Fanout) (g : Gateway)
    → Together (a f) (c g)
    → Together (b (a f).0) (d (c g).0)
    → Together ((a >> b) f) ((c >> d) g)
>>-Together a b c d f g (s, p) (t, q) = (
  t,
  rw
      (
        collect-append turn_call (a f).1 (b (a f).0).1,
        collect-append turn_call (c g).1 (d (c g).0).1,
        p,
        q,
      )
      refl,
)

-- What an event may not be: the Claude process's own markers, and an event that opens a turn.
abbrev pub plain_event : Bool → AcpEvent → Bool
plain_event running (turn_origin kind) = false
plain_event running stdin_echo = false
plain_event running (peer_message from text tid) = false
plain_event running (content_block b) = running
plain_event running _ = true
