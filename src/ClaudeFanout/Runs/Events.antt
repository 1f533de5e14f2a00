-- ===== src/ClaudeFanout/Runs/Events.antt =====
-- What an event of the process does to the scheduled run of the fan-out.
use zeromux.Acp.{AcpEvent, turn_result, error, exit, turn_origin, stdin_echo, is_boundary}
use zeromux.ClaudeFanout.Boundary.{
  count_boundary, announce_turn, reconcile_vault, finalize_active, record_boundary, arm_if_idle,
  title_once, boundary_actions, settle_boundary,
}
use zeromux.ClaudeFanout.Events.{
  open_external, log_result, backfill_token, consume_origin, emit_event, tee_run_event, classify,
  event_actions, on_agent_event, on_event,
}
use zeromux.ClaudeFanout.State.{Config, Fanout, Action}
use zeromux.Effects.{Moment, in_order}
use zeromux.Prelude.{ℕ, refl, List, [], ◌∷◌, arith, Each, done, ◌▹◌}
use zeromux.Prompts.{cap_peer_message}
use zeromux.Turns.{ClaudeStep, start_external_turn, skip_boundary, normal}
use zeromux.ClaudeFanout.Runs.{Keeps, >>-Keeps, when-Keeps}

pub count_boundary-Keeps : (s : Fanout) → Keeps count_boundary s
unfolding count_boundary
count_boundary-Keeps s = ground arith

pub announce_turn-Keeps : (now : ℕ) (s : Fanout) → Keeps (announce_turn now) s
unfolding announce_turn
announce_turn-Keeps now s = ground arith

pub reconcile_vault-Keeps : (s : Fanout) → Keeps reconcile_vault s
unfolding reconcile_vault
reconcile_vault-Keeps s = ground arith

pub finalize_active-Keeps : (evt : AcpEvent) (s : Fanout) → Keeps (finalize_active evt) s
unfolding finalize_active is_boundary
finalize_active-Keeps (turn_result r) s = ground arith
finalize_active-Keeps (error e) s = ground arith
finalize_active-Keeps (exit c) s = ground arith
finalize_active-Keeps _ s = ground arith

pub record_boundary-Keeps :
    (cfg : Config) (m : Moment) (evt : AcpEvent) (s : Fanout) → Keeps (record_boundary cfg m evt) s
unfolding record_boundary
record_boundary-Keeps cfg m evt s = ground arith

pub title_once-Keeps : (evt : AcpEvent) (s : Fanout) → Keeps (title_once evt) s
unfolding title_once
title_once-Keeps (turn_result r) s = ground arith
title_once-Keeps _ s = refl

pub in_order-Keeps :
    (actions : List Action) (s : Fanout)
    → Each (λ a. (u : Fanout) → Keeps a u) actions
    → Keeps (in_order actions) s
in_order-Keeps [] s done = refl
in_order-Keeps (a ∷ later) s (p ▹ ps) =
    >>-Keeps a (in_order later) s (p s) (in_order-Keeps later (a s).0 ps)

pub settle_boundary-Keeps :
    (cfg : Config) (m : Moment) (evt : AcpEvent) (s : Fanout) → Keeps (settle_boundary cfg m evt) s
unfolding settle_boundary arm_if_idle
settle_boundary-Keeps cfg m evt s = in_order-Keeps (boundary_actions cfg m evt) s (
    count_boundary-Keeps
    ▹ announce_turn-Keeps m.now
    ▹ reconcile_vault-Keeps
    ▹ finalize_active-Keeps evt
    ▹ record_boundary-Keeps cfg m evt
    ▹ (λ u. refl)
    ▹ title_once-Keeps evt
    ▹ done)

pub open_external-Keeps :
    (step : ClaudeStep) (now : ℕ) (s : Fanout) → Keeps (open_external step now) s
unfolding open_external
open_external-Keeps start_external_turn now s = refl
open_external-Keeps skip_boundary now s = refl
open_external-Keeps normal now s = refl

pub log_result-Keeps : (evt : AcpEvent) (s : Fanout) → Keeps (log_result evt) s
unfolding log_result
log_result-Keeps evt s = ground arith

pub backfill_token-Keeps : (evt : AcpEvent) (s : Fanout) → Keeps (backfill_token evt) s
unfolding backfill_token
backfill_token-Keeps evt s = ground arith

pub tee_run_event-Keeps : (evt : AcpEvent) (s : Fanout) → Keeps (tee_run_event evt) s
unfolding tee_run_event
tee_run_event-Keeps evt s = ground arith

pub on_agent_event-Keeps :
    (cfg : Config) (m : Moment) (evt : AcpEvent) (s : Fanout) → Keeps (on_agent_event cfg m evt) s
unfolding on_agent_event consume_origin emit_event
on_agent_event-Keeps cfg m evt s = in_order-Keeps (event_actions cfg m evt (classify evt s)) s (
    open_external-Keeps (classify evt s) m.now
    ▹ log_result-Keeps evt
    ▹ backfill_token-Keeps evt
    ▹ (λ u. refl)
    ▹ (λ u. refl)
    ▹ tee_run_event-Keeps evt
    ▹ when-Keeps _ (settle_boundary cfg m evt) (settle_boundary-Keeps cfg m evt)
    ▹ done)

pub on_event-Keeps :
    (cfg : Config) (m : Moment) (evt : AcpEvent) (s : Fanout) → Keeps (on_event cfg m evt) s
unfolding on_event
on_event-Keeps cfg m (turn_origin kind) s = refl
on_event-Keeps cfg m stdin_echo s = refl
on_event-Keeps cfg m evt s = on_agent_event-Keeps cfg m (cap_peer_message evt) s
