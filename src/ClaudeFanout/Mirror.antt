-- ===== src/ClaudeFanout/Mirror.antt =====
-- The session that clients and watchdogs see mirrors the variables of its fan-out.
pub mod Events
pub mod Rounds
use zeromux.Acp.{AcpEvent, turn_result, error, exit, turn_origin, stdin_echo}
use zeromux.ClaudeFanout.Boundary.{
  count_boundary, announce_turn, reconcile_vault, finalize_active, record_boundary, arm_if_idle,
  title_once, boundary_actions, settle_boundary,
}
use zeromux.ClaudeFanout.Events.{
  open_external, log_result, backfill_token, consume_origin, emit_event, tee_run_event, classify,
  event_actions, on_agent_event, on_event,
}
use zeromux.ClaudeFanout.Input.{
  begin_turn, stamp_intent, clear_queue, interrupt_live, finalize_active_run_if_scheduled,
  echo_prompt, note_substantive, set_active, scheduled_prompt, collect_prompt, interrupting_prompt,
  passthrough_prompt, plain_prompt, on_prompt, on_input,
}
use zeromux.ClaudeFanout.Invariant.{fanout-Inv}
use zeromux.ClaudeFanout.Loop.{Message, event, input, timer, flush, on_timer, round, rounds}
use zeromux.ClaudeFanout.Manager.{Serializer, serve_call, serve_calls, serve_calls-append}
use zeromux.ClaudeFanout.State.{Config, Fanout, Action, init}
use zeromux.Effects.{Moment, emit, ◌>>◌, in_order, when}
use zeromux.Inputs.{
  SessionInput, pty_data, pty_resize, prompt, cancel, interrupt_turn, set_queue_mode, timeout_kill,
  approval_reply,
}
use zeromux.Prelude.{
  ℕ, ◌≡◌, ◌∙◌, Bool, true, false, Option, none, some, List, [], ◌∷◌, String, Text, arith, Each,
  done, ◌▹◌, ltb, length,
}
use zeromux.PromptQueue.{QueueMode, collect, interrupt, passthrough}
use zeromux.Prompts.{cap_peer_message}
use zeromux.Session.{Session, RunningProcess}
use zeromux.Session.Scrollback.{record_and_broadcast}
use zeromux.Session.Turn
use zeromux.Turns.{TurnState, idle, running, ClaudeStep, start_external_turn, skip_boundary, normal}

abbrev pub TurnView : Type 0
TurnView = Option (TurnState × ℕ × QueueMode)

-- What a session shows of the turn of its process.
abbrev pub turn_view : Option RunningProcess → TurnView
turn_view none = none
turn_view (some rp) = some (rp.turn_state, rp.turn_seq, rp.queue_mode)

abbrev pub state_of : Bool → TurnState
state_of true = running
state_of false = idle

abbrev pub fanout_view : Fanout → TurnView
fanout_view s = some (state_of s.local_running, s.turn_seq, s.queue_mode)

module _ (json : Serializer) (now : ℕ) where
  pub emit-view :
      (tid : ℕ) (evt : AcpEvent) (u : Session)
      → turn_view (serve_call json now (emit tid evt) u).running ≡ turn_view u.running
  unfolding serve_call record_and_broadcast
  emit-view tid evt u = ground arith

-- If the session shows what the task's variables say, it does so after the action and its calls.
abbrev pub Mirrors : Serializer → ℕ → Action → Fanout → Type 0
Mirrors json now a s =
    (u : Session)
    → turn_view u.running ≡ fanout_view s
    → turn_view (serve_calls json now (a s).1 u).running ≡ fanout_view (a s).0

module _ (json : Serializer) (now : ℕ) where
  pub >>-Mirrors :
      (a b : Action) (s : Fanout)
      → Mirrors json now a s
      → Mirrors json now b (a s).0
      → Mirrors json now (a >> b) s
  >>-Mirrors a b s p q u e =
      rw (serve_calls-append json now (a s).1 (b (a s).0).1 u)
        (q (serve_calls json now (a s).1 u) (p u e))

  pub in_order-Mirrors :
      (actions : List Action) (s : Fanout)
      → Each (λ a. (t : Fanout) → Mirrors json now a t) actions
      → Mirrors json now (in_order actions) s
  unfolding serve_calls
  in_order-Mirrors [] s done u e = e
  in_order-Mirrors (a ∷ later) s (p ▹ ps) u e =
      >>-Mirrors a (in_order later) s (p s) (in_order-Mirrors later (a s).0 ps) u e

  pub when-Mirrors :
      (b : Bool) (a : Action)
      → ((s : Fanout) → Mirrors json now a s)
      → (s : Fanout) → Mirrors json now (when b a) s
  unfolding serve_calls
  when-Mirrors true a h s u e = h s u e
  when-Mirrors false a h s u e = e
