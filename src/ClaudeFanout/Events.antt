-- ===== src/ClaudeFanout/Events.antt =====
-- What `spawn_acp_fanout` does with an event of its process.
use zeromux.Acp.{AcpEvent, turn_result, turn_origin, stdin_echo, is_boundary, claude_session_id}
use zeromux.ClaudeFanout.Boundary.{settle_boundary}
use zeromux.ClaudeFanout.State.{Config, Fanout, Action}
use zeromux.Effects.{
  Moment, emit, log_result_event, append_run_event, mark_turn, set_resume_token, in_order, when,
}
use zeromux.Prelude.{
  ℕ, ◌+◌, Bool, true, false, not, ◌&&◌, ◌||◌, none, some, List, [], ◌∷◌, if◌then◌else◌,
}
use zeromux.PromptQueue.{disarm}
use zeromux.Prompts.{cap_peer_message}
use zeromux.Session.{claude}
use zeromux.Turns.{
  running, start_external, front_is_external, front_is_echoed, mark_echoed, ClaudeStep,
  start_external_turn, skip_boundary, normal, classify_claude_event,
}

-- The CLI started a turn on its own: the steps of a turn that a prompt starts, but no prompt. The
-- collect window closes, so that it cannot fire in mid-turn.
unfoldable pub open_external : ClaudeStep → ℕ → Action
open_external start_external_turn now s =
    let seq = s.turn_seq + 1 in
    (
      record s {
        turn_seq = seq;
        local_running = true;
        turn_starts = start_external now s.turn_starts;
        queue = disarm s.queue;
      },
      mark_turn running seq ∷ [],
    )
open_external skip_boundary now s = (s, [])
open_external normal now s = (s, [])

unfoldable pub is_result : AcpEvent → Bool
is_result (turn_result r) = true
is_result _ = false

unfoldable pub log_result : AcpEvent → Action
unfolding is_result
log_result evt s = (s, if is_result evt then log_result_event evt ∷ [] else [])

unfoldable pub backfill_token : AcpEvent → Action
backfill_token evt s = elim (claude_session_id evt) [
  | none ↦ (s, [])
  | some id ↦
      if s.token_saved
      then (s, [])
      else (record s { token_saved = true }, set_resume_token (claude id) ∷ [])
]

-- The origin marker belongs to the next boundary alone.
unfoldable pub consume_origin : AcpEvent → Action
consume_origin evt s =
    (record s { pending_origin = if is_boundary evt then false else s.pending_origin }, [])

unfoldable pub emit_event : AcpEvent → Action
emit_event evt s = (s, emit s.turn_seq evt ∷ [])

unfoldable pub tee_run_event : AcpEvent → Action
tee_run_event evt s = elim s.active_run_id [
  | none ↦ (s, [])
  | some rid ↦ (s, append_run_event rid evt ∷ [])
]

abbrev pub is_skip : ClaudeStep → Bool
is_skip skip_boundary = true
is_skip start_external_turn = false
is_skip normal = false

unfoldable pub classify : AcpEvent → Fanout → ClaudeStep
unfolding classify_claude_event
classify evt s =
    classify_claude_event s.local_running evt s.pending_origin
      (front_is_external s.turn_starts || front_is_echoed s.turn_starts)

abbrev pub event_actions : Config → Moment → AcpEvent → ClaudeStep → List Action
event_actions cfg m evt step =
    open_external step m.now
    ∷ log_result evt
    ∷ backfill_token evt
    ∷ consume_origin evt
    ∷ emit_event evt
    ∷ tee_run_event evt
    ∷ when (is_boundary evt && not (is_skip step)) (settle_boundary cfg m evt)
    ∷ []

unfoldable pub on_agent_event : Config → Moment → AcpEvent → Action
on_agent_event cfg m evt s = in_order (event_actions cfg m evt (classify evt s)) s

-- The two markers change the attribution of turns and go no further.
unfoldable pub on_event : Config → Moment → AcpEvent → Action
on_event cfg m (turn_origin kind) s = (record s { pending_origin = true }, [])
on_event cfg m stdin_echo s = (record s { turn_starts = mark_echoed s.turn_starts }, [])
on_event cfg m evt s = on_agent_event cfg m (cap_peer_message evt) s
