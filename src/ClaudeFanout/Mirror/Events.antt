-- ===== src/ClaudeFanout/Mirror/Events.antt =====
-- The session mirrors its fan-out across an event of the process.
use zeromux.Acp.{AcpEvent, turn_result, error, exit, turn_origin, stdin_echo}
use zeromux.ClaudeFanout.Boundary.{
  count_boundary, announce_turn, reconcile_vault, finalize_active, record_boundary, arm_if_idle,
  title_once, boundary_actions, settle_boundary,
}
use zeromux.ClaudeFanout.Events.{
  open_external, log_result, backfill_token, consume_origin, emit_event, tee_run_event, classify,
  event_actions, on_agent_event, on_event,
}
use zeromux.ClaudeFanout.Manager.{Serializer, serve_call, serve_calls}
use zeromux.ClaudeFanout.State.{Config, Fanout}
use zeromux.Effects.{Moment}
use zeromux.Prelude.{ℕ, ◌∙◌, arith, done, ◌▹◌}
use zeromux.Prompts.{cap_peer_message}
use zeromux.Session.Turn
use zeromux.Turns.{ClaudeStep, start_external_turn, skip_boundary, normal}
use zeromux.ClaudeFanout.Mirror.{emit-view, Mirrors, in_order-Mirrors, when-Mirrors}

module _ (json : Serializer) (now : ℕ) where
  count_boundary-Mirrors : (s : Fanout) → Mirrors json now count_boundary s
  unfolding count_boundary serve_calls serve_call Turn.apply_turn
  count_boundary-Mirrors s u e = ground arith

  announce_turn-Mirrors : (t : ℕ) (s : Fanout) → Mirrors json now (announce_turn t) s
  unfolding announce_turn serve_calls serve_call
  announce_turn-Mirrors t s u e = ground arith

  reconcile_vault-Mirrors : (s : Fanout) → Mirrors json now reconcile_vault s
  unfolding reconcile_vault serve_calls serve_call
  reconcile_vault-Mirrors s u e = ground arith

  finalize_active-Mirrors : (evt : AcpEvent) (s : Fanout) → Mirrors json now (finalize_active evt) s
  unfolding finalize_active serve_calls serve_call
  finalize_active-Mirrors (turn_result r) s u e = ground arith
  finalize_active-Mirrors (error m) s u e = ground arith
  finalize_active-Mirrors (exit c) s u e = ground arith
  finalize_active-Mirrors _ s u e = ground arith

  record_boundary-Mirrors :
      (cfg : Config) (m : Moment) (evt : AcpEvent) (s : Fanout)
      → Mirrors json now (record_boundary cfg m evt) s
  unfolding record_boundary serve_calls serve_call Turn.settle_posture Turn.record_run_metric
  record_boundary-Mirrors cfg m evt s u e = ground arith

  arm_if_idle-Mirrors : (t : ℕ) (s : Fanout) → Mirrors json now (arm_if_idle t) s
  unfolding arm_if_idle serve_calls
  arm_if_idle-Mirrors t s u e = e

  title_once-Mirrors : (evt : AcpEvent) (s : Fanout) → Mirrors json now (title_once evt) s
  unfolding title_once serve_calls serve_call
  title_once-Mirrors (turn_result r) s u e = ground arith
  title_once-Mirrors _ s u e = e

  settle_boundary-Mirrors :
      (cfg : Config) (m : Moment) (evt : AcpEvent) (s : Fanout)
      → Mirrors json now (settle_boundary cfg m evt) s
  unfolding settle_boundary
  settle_boundary-Mirrors cfg m evt s = in_order-Mirrors json now (boundary_actions cfg m evt) s (
      count_boundary-Mirrors
      ▹ announce_turn-Mirrors m.now
      ▹ reconcile_vault-Mirrors
      ▹ finalize_active-Mirrors evt
      ▹ record_boundary-Mirrors cfg m evt
      ▹ arm_if_idle-Mirrors m.now
      ▹ title_once-Mirrors evt
      ▹ done)

  open_external-Mirrors :
      (step : ClaudeStep) (t : ℕ) (s : Fanout) → Mirrors json now (open_external step t) s
  unfolding open_external serve_calls serve_call Turn.apply_turn
  open_external-Mirrors start_external_turn t s u e = ground arith
  open_external-Mirrors skip_boundary t s u e = e
  open_external-Mirrors normal t s u e = e

  log_result-Mirrors : (evt : AcpEvent) (s : Fanout) → Mirrors json now (log_result evt) s
  unfolding log_result serve_calls serve_call
  log_result-Mirrors evt s u e = ground arith

  backfill_token-Mirrors : (evt : AcpEvent) (s : Fanout) → Mirrors json now (backfill_token evt) s
  unfolding backfill_token serve_calls serve_call Turn.set_resume_token
  backfill_token-Mirrors evt s u e = ground arith

  consume_origin-Mirrors : (evt : AcpEvent) (s : Fanout) → Mirrors json now (consume_origin evt) s
  unfolding consume_origin serve_calls
  consume_origin-Mirrors evt s u e = e

  emit_event-Mirrors : (evt : AcpEvent) (s : Fanout) → Mirrors json now (emit_event evt) s
  unfolding emit_event serve_calls
  emit_event-Mirrors evt s u e = emit-view json now s.turn_seq evt u ∙ e

  tee_run_event-Mirrors : (evt : AcpEvent) (s : Fanout) → Mirrors json now (tee_run_event evt) s
  unfolding tee_run_event serve_calls serve_call
  tee_run_event-Mirrors evt s u e = ground arith

  on_agent_event-Mirrors :
      (cfg : Config) (m : Moment) (evt : AcpEvent) (s : Fanout)
      → Mirrors json now (on_agent_event cfg m evt) s
  unfolding on_agent_event
  on_agent_event-Mirrors cfg m evt s =
      in_order-Mirrors json now (event_actions cfg m evt (classify evt s)) s (
        open_external-Mirrors (classify evt s) m.now
        ▹ log_result-Mirrors evt
        ▹ backfill_token-Mirrors evt
        ▹ consume_origin-Mirrors evt
        ▹ emit_event-Mirrors evt
        ▹ tee_run_event-Mirrors evt
        ▹ when-Mirrors json now _ (settle_boundary cfg m evt) (settle_boundary-Mirrors cfg m evt)
        ▹ done)

  pub on_event-Mirrors :
      (cfg : Config) (m : Moment) (evt : AcpEvent) (s : Fanout)
      → Mirrors json now (on_event cfg m evt) s
  unfolding on_event serve_calls
  on_event-Mirrors cfg m (turn_origin kind) s u e = e
  on_event-Mirrors cfg m stdin_echo s u e = e
  on_event-Mirrors cfg m evt s u e = on_agent_event-Mirrors cfg m (cap_peer_message evt) s u e
