-- ===== src/ClaudeFanout/Starts/Events.antt =====
-- An event of the process keeps the turns and their metrics paired.
use mathlib.Core.List.{append-nil}
use zeromux.Acp.{AcpEvent, turn_result, error, exit, turn_origin, stdin_echo}
use zeromux.ClaudeFanout.Boundary.{
  count_boundary, announce_turn, reconcile_vault, finalize_active, record_boundary, arm_if_idle,
  title_once, boundary_actions, settle_boundary,
}
use zeromux.ClaudeFanout.Events.{
  open_external, log_result, backfill_token, consume_origin, emit_event, tee_run_event, classify,
  event_actions, on_agent_event, on_event,
}
use zeromux.ClaudeFanout.Ledger.{in_order-Balanced, when-Balanced}
use zeromux.ClaudeFanout.State.{Config, Fanout}
use zeromux.Effects.{Moment}
use zeromux.Prelude.{ℕ, sym, ◌∙◌, arith, done, ◌▹◌}
use zeromux.Prompts.{cap_peer_message}
use zeromux.RunMetrics.{build_run_metric}
use zeromux.Turns.Fifo.{starts-start_external, starts-mark_echoed, starts-settle}
use zeromux.Turns.{ClaudeStep, start_external_turn, skip_boundary, normal}
use zeromux.ClaudeFanout.Starts.{started_at, measured, pending, Paired}

module _ (now : ℕ) where
  count_boundary-Paired : (s : Fanout) → Paired now count_boundary s
  unfolding count_boundary
  count_boundary-Paired s = ground (arith, append-nil (pending s))

  announce_turn-Paired : (t : ℕ) (s : Fanout) → Paired now (announce_turn t) s
  unfolding announce_turn
  announce_turn-Paired t s = ground (arith, append-nil (pending s))

  reconcile_vault-Paired : (s : Fanout) → Paired now reconcile_vault s
  unfolding reconcile_vault
  reconcile_vault-Paired s = ground (arith, append-nil (pending s))

  finalize_active-Paired : (evt : AcpEvent) (s : Fanout) → Paired now (finalize_active evt) s
  unfolding finalize_active
  finalize_active-Paired (turn_result r) s = ground (arith, append-nil (pending s))
  finalize_active-Paired (error m) s = ground (arith, append-nil (pending s))
  finalize_active-Paired (exit c) s = ground (arith, append-nil (pending s))
  finalize_active-Paired _ s = ground (arith, append-nil (pending s))

  record_boundary-Paired :
      (cfg : Config) (m : Moment) (evt : AcpEvent) (s : Fanout)
      → Paired now (record_boundary cfg m evt) s
  unfolding record_boundary build_run_metric
  record_boundary-Paired cfg m evt s =
      ground (arith, append-nil (pending s), starts-settle s.turn_starts)

  arm_if_idle-Paired : (t : ℕ) (s : Fanout) → Paired now (arm_if_idle t) s
  unfolding arm_if_idle
  arm_if_idle-Paired t s = sym (append-nil (pending s))

  title_once-Paired : (evt : AcpEvent) (s : Fanout) → Paired now (title_once evt) s
  unfolding title_once
  title_once-Paired (turn_result r) s = ground (arith, append-nil (pending s))
  title_once-Paired _ s = sym (append-nil (pending s))

  settle_boundary-Paired :
      (cfg : Config) (m : Moment) (evt : AcpEvent) (s : Fanout)
      → Paired now (settle_boundary cfg m evt) s
  unfolding settle_boundary
  settle_boundary-Paired cfg m evt s =
      in_order-Balanced (started_at now) measured pending (boundary_actions cfg m evt) s (
        count_boundary-Paired
        ▹ announce_turn-Paired m.now
        ▹ reconcile_vault-Paired
        ▹ finalize_active-Paired evt
        ▹ record_boundary-Paired cfg m evt
        ▹ arm_if_idle-Paired m.now
        ▹ title_once-Paired evt
        ▹ done)

  open_external-Paired : (step : ClaudeStep) (s : Fanout) → Paired now (open_external step now) s
  unfolding open_external
  open_external-Paired start_external_turn s = starts-start_external now s.turn_starts
  open_external-Paired skip_boundary s = sym (append-nil (pending s))
  open_external-Paired normal s = sym (append-nil (pending s))

  log_result-Paired : (evt : AcpEvent) (s : Fanout) → Paired now (log_result evt) s
  unfolding log_result
  log_result-Paired evt s = ground (arith, append-nil (pending s))

  backfill_token-Paired : (evt : AcpEvent) (s : Fanout) → Paired now (backfill_token evt) s
  unfolding backfill_token
  backfill_token-Paired evt s = ground (arith, append-nil (pending s))

  consume_origin-Paired : (evt : AcpEvent) (s : Fanout) → Paired now (consume_origin evt) s
  unfolding consume_origin
  consume_origin-Paired evt s = sym (append-nil (pending s))

  emit_event-Paired : (evt : AcpEvent) (s : Fanout) → Paired now (emit_event evt) s
  unfolding emit_event
  emit_event-Paired evt s = sym (append-nil (pending s))

  tee_run_event-Paired : (evt : AcpEvent) (s : Fanout) → Paired now (tee_run_event evt) s
  unfolding tee_run_event
  tee_run_event-Paired evt s = ground (arith, append-nil (pending s))

pub on_agent_event-Paired :
    (cfg : Config) (m : Moment) (evt : AcpEvent) (s : Fanout)
    → Paired m.now (on_agent_event cfg m evt) s
unfolding on_agent_event
on_agent_event-Paired cfg m evt s =
    let step = classify evt s in
    in_order-Balanced (started_at m.now) measured pending (event_actions cfg m evt step) s (
      open_external-Paired m.now step
      ▹ log_result-Paired m.now evt
      ▹ backfill_token-Paired m.now evt
      ▹ consume_origin-Paired m.now evt
      ▹ emit_event-Paired m.now evt
      ▹ tee_run_event-Paired m.now evt
      ▹ (λ t.
          when-Balanced (started_at m.now) measured pending _ (settle_boundary cfg m evt) t
            (settle_boundary-Paired m.now cfg m evt t))
      ▹ done)

pub on_event-Paired :
    (cfg : Config) (m : Moment) (evt : AcpEvent) (s : Fanout) → Paired m.now (on_event cfg m evt) s
unfolding on_event
on_event-Paired cfg m (turn_origin kind) s = sym (append-nil (pending s))
on_event-Paired cfg m stdin_echo s = starts-mark_echoed s.turn_starts ∙ sym (append-nil (pending s))
on_event-Paired cfg m evt s = on_agent_event-Paired cfg m (cap_peer_message evt) s
