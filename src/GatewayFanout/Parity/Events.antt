-- ===== src/GatewayFanout/Parity/Events.antt =====
-- The tasks stay together across an event of the process.
use zeromux.Acp.{
  AcpEvent, content_block, turn_result, error, exit, peer_message, turn_origin, stdin_echo,
  is_boundary,
}
use zeromux.ClaudeFanout.Boundary as CBoundary
use zeromux.ClaudeFanout.Events as CEvents
use zeromux.ClaudeFanout.State.{Config, Fanout}
use zeromux.ClaudeFanout.State as CState
use zeromux.Effects.{Moment, ◌>>◌, in_order, when}
use zeromux.GatewayFanout.Events as GEvents
use zeromux.GatewayFanout.State.{Settings, Gateway}
use zeromux.GatewayFanout.State as GState
use zeromux.Prelude.{◌≡◌, refl, true, false, [], ◌∷◌, arith, Bool-cases, inl, inr, ◌&&◌}
use zeromux.Prompts.{cap_peer_message}
use zeromux.Turns.{normal}
use zeromux.GatewayFanout.Parity.{Together, Same, plain_event, >>-Together}

settle_boundary-Together :
    (cfg : Config) (set : Settings) (m : Moment) (evt : AcpEvent) (f : Fanout) (g : Gateway)
    → Same f g
    → is_boundary evt ≡ true
    → Together (CBoundary.settle_boundary cfg m evt f) (GEvents.settle_boundary set m evt g)
unfolding CBoundary.settle_boundary CBoundary.count_boundary CBoundary.announce_turn
    CBoundary.reconcile_vault CBoundary.finalize_active CBoundary.record_boundary
    CBoundary.arm_if_idle CBoundary.title_once is_boundary CBoundary.metric_calls
    GEvents.settle_boundary GEvents.count_boundary GEvents.announce_turn GEvents.reconcile_vault
    GEvents.record_boundary GEvents.arm_if_idle
settle_boundary-Together cfg set m (turn_result r) f g v b = ground arith
settle_boundary-Together cfg set m (error e) f g v b = ground arith
settle_boundary-Together cfg set m (exit c) f g v b = ground arith
settle_boundary-Together cfg set m _ f g v b = cc

classify-normal :
    (evt : AcpEvent) (f : Fanout)
    → f.pending_origin ≡ false
    → plain_event f.local_running evt ≡ true
    → CEvents.classify evt f ≡ normal
unfolding CEvents.classify
classify-normal (content_block b) f o p = ground arith
classify-normal (peer_message from text tid) f o p = ground arith
classify-normal _ f o p = ground arith

log_result-Together :
    (evt : AcpEvent) (f : Fanout) (g : Gateway)
    → Same f g
    → Together (CEvents.log_result evt f) (GEvents.log_result evt g)
unfolding CEvents.log_result GEvents.log_result
log_result-Together evt f g v = (v, refl)

backfill_token-Together :
    (set : Settings) (evt : AcpEvent) (f : Fanout) (g : Gateway)
    → Same f g
    → Together (CEvents.backfill_token evt f) (GEvents.backfill_token set evt g)
unfolding CEvents.backfill_token GEvents.backfill_token
backfill_token-Together set evt f g v = ground arith

emit_event-Together :
    (evt : AcpEvent) (f : Fanout) (g : Gateway)
    → Same f g
    → Together (CEvents.emit_event evt f) (GEvents.emit_event evt g)
unfolding CEvents.emit_event GEvents.emit_event
emit_event-Together evt f g v = ground arith

abbrev claude_end : Config → Moment → AcpEvent → CState.Action
claude_end cfg m evt = when (is_boundary evt && true) (CBoundary.settle_boundary cfg m evt)

abbrev gateway_end : Settings → Moment → AcpEvent → GState.Action
gateway_end set m evt = when (is_boundary evt) (GEvents.settle_boundary set m evt)

when_boundary-Together :
    (cfg : Config) (set : Settings) (m : Moment) (evt : AcpEvent) (f : Fanout) (g : Gateway)
    → Same f g
    → Together ((claude_end cfg m evt >> in_order []) f) ((gateway_end set m evt >> in_order []) g)
when_boundary-Together cfg set m evt f g v = elim (Bool-cases (is_boundary evt)) [
  | inl e ↦ rw e (
      >>-Together (CBoundary.settle_boundary cfg m evt) (in_order [])
        (GEvents.settle_boundary set m evt) (in_order []) f g
        (settle_boundary-Together cfg set m evt f g v e)
        ((settle_boundary-Together cfg set m evt f g v e).0, refl))
  | inr e ↦ rw e (v, refl)
]

consumed-Same :
    (evt : AcpEvent) (f : Fanout) (g : Gateway) → Same f g → Same (CEvents.consume_origin evt f).0 g
unfolding CEvents.consume_origin
consumed-Same evt f g v = ground arith

from_emit-Together :
    (cfg : Config) (set : Settings) (m : Moment) (evt : AcpEvent) (f : Fanout) (g : Gateway)
    → Same f g
    → Together
        ((CEvents.emit_event evt
            >> CEvents.tee_run_event evt
            >> claude_end cfg m evt
            >> in_order [])
          f)
        ((GEvents.emit_event evt >> gateway_end set m evt >> in_order []) g)
unfolding CEvents.emit_event CEvents.tee_run_event GEvents.emit_event
from_emit-Together cfg set m evt f g v =
    >>-Together (CEvents.emit_event evt)
      (CEvents.tee_run_event evt >> claude_end cfg m evt >> in_order []) (GEvents.emit_event evt)
      (gateway_end set m evt >> in_order []) f g (emit_event-Together evt f g v)
      (rw v.no_run (when_boundary-Together cfg set m evt f g v))

on_agent_event-Together :
    (cfg : Config) (set : Settings) (m : Moment) (evt : AcpEvent) (f : Fanout) (g : Gateway)
    → Same f g
    → plain_event f.local_running evt ≡ true
    → Together (CEvents.on_agent_event cfg m evt f) (GEvents.on_event set m evt g)
unfolding CEvents.on_agent_event CEvents.open_external CEvents.consume_origin CEvents.log_result
    GEvents.on_event GEvents.log_result
on_agent_event-Together cfg set m evt f g v p = rw (classify-normal evt f v.no_origin p) (
    let w = backfill_token-Together set evt f g v in
    >>-Together (CEvents.log_result evt)
      (in_order (
        CEvents.backfill_token evt
        ∷ CEvents.consume_origin evt
        ∷ CEvents.emit_event evt
        ∷ CEvents.tee_run_event evt
        ∷ claude_end cfg m evt
        ∷ []))
      (GEvents.log_result evt)
      (in_order
        (GEvents.backfill_token set evt ∷ GEvents.emit_event evt ∷ gateway_end set m evt ∷ []))
      f g (log_result-Together evt f g v)
      (>>-Together (CEvents.backfill_token evt)
        (in_order (
          CEvents.consume_origin evt
          ∷ CEvents.emit_event evt
          ∷ CEvents.tee_run_event evt
          ∷ claude_end cfg m evt
          ∷ []))
        (GEvents.backfill_token set evt)
        (in_order (GEvents.emit_event evt ∷ gateway_end set m evt ∷ [])) f g w
        (from_emit-Together cfg set m evt
          (CEvents.consume_origin evt (CEvents.backfill_token evt f).0).0
          (GEvents.backfill_token set evt g).0 (consumed-Same evt _ _ w.0))))

pub on_event-Together :
    (cfg : Config) (set : Settings) (m : Moment) (evt : AcpEvent) (f : Fanout) (g : Gateway)
    → Same f g
    → plain_event f.local_running evt ≡ true
    → Together (CEvents.on_event cfg m evt f) (GEvents.on_event set m evt g)
unfolding CEvents.on_event cap_peer_message
on_event-Together cfg set m (turn_origin kind) f g v p = cc
on_event-Together cfg set m stdin_echo f g v p = cc
on_event-Together cfg set m (peer_message from text tid) f g v p = cc
on_event-Together cfg set m evt f g v p = on_agent_event-Together cfg set m evt f g v p
