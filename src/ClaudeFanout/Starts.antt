-- ===== src/ClaudeFanout/Starts.antt =====
-- The turns of the fan-out and their metrics: each start is paired with one metric, in order.
pub mod Events
pub mod Rounds
use mathlib.Core.List.{append_assoc, append-nil}
use zeromux.Acp.{AcpEvent, turn_result, error, exit, turn_origin, stdin_echo}
use zeromux.ClaudeFanout.Boundary.{
  count_boundary, announce_turn, reconcile_vault, finalize_active, record_boundary, arm_if_idle,
  title_once, boundary_actions, settle_boundary,
}
use zeromux.ClaudeFanout.Events.{
  open_external, log_result, backfill_token, consume_origin, emit_event, tee_run_event, classify,
  event_actions, on_agent_event, on_event,
}
use zeromux.ClaudeFanout.Input.{
  begin_turn, stamp_intent, clear_queue, interrupt_live, finalize_active_run_if_scheduled,
  echo_prompt, note_substantive, scheduled_prompt, collect_prompt, interrupting_prompt,
  passthrough_prompt, plain_prompt, on_prompt, on_input,
}
use zeromux.ClaudeFanout.Ledger.{
  collect, collect-append, Balanced, in_order-Balanced, when-Balanced,
}
use zeromux.ClaudeFanout.Loop.{Message, event, input, timer, flush, on_timer, round, rounds}
use zeromux.ClaudeFanout.State.{Config, Fanout, Action, init}
use zeromux.Effects.{Moment, Effect, mark_turn, record_run_metric}
use zeromux.Inputs.{
  SessionInput, pty_data, pty_resize, prompt, cancel, interrupt_turn, set_queue_mode, timeout_kill,
  approval_reply,
}
use zeromux.Prelude.{
  ℕ, ◌≡◌, sym, ap, ◌∙◌, none, some, List, [], ◌∷◌, ◌++◌, map, String, Text, arith, done, ◌▹◌,
}
use zeromux.Prompts.{cap_peer_message}
use zeromux.PromptQueue.{QueueMode, collect as collect_mode, interrupt, passthrough}
use zeromux.RunMetrics.{cancelled, timeout, build_run_metric}
use zeromux.Turns.Fifo.{
  start_of, starts-start, starts-start_external, starts-mark_echoed, starts-set_live_intent,
  starts-settle,
}
use zeromux.Turns.{running, set_live_intent, ClaudeStep, start_external_turn, skip_boundary, normal}

-- A call that marks a turn as running, at the time `now` of its round; and the start of a metric.
abbrev pub started_at : ℕ → Effect → List ℕ
started_at now (mark_turn running seq) = now ∷ []
started_at now _ = []

abbrev pub measured : Effect → List ℕ
measured (record_run_metric m) = m.started_ms ∷ []
measured _ = []

abbrev pub pending : Fanout → List ℕ
pending s = map start_of s.turn_starts

abbrev pub Paired : ℕ → Action → Fanout → Type 0
Paired now a s = Balanced (started_at now) measured pending a s
