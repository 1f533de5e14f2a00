-- ===== src/ClaudeFanout/Aborts.antt =====
-- A turn of the Claude fan-out that the user or a watchdog aborted, at its boundary.
use zeromux.Acp.{AcpEvent, turn_result, error, exit, is_boundary}
use zeromux.ClaudeFanout.Boundary.{
  intent_suppresses_push, run_done_push_allowed, count_boundary, announce_turn, reconcile_vault,
  finalize_calls, finalize_active, record_boundary, arm_if_idle, title_once, settle_boundary,
}
use zeromux.ClaudeFanout.Ledger.{collect}
use zeromux.ClaudeFanout.State.{Config, Fanout}
use zeromux.Effects.{
  Moment, Effect, push_turn_done, push_run_done, push_run_failed, record_run_metric,
}
use zeromux.Prelude.{◌≡◌, true, some, List, [], ◌∷◌, arith, ◌⊎◌}
use zeromux.RunMetrics.{RunOutcome, classify_outcome, build_run_metric, timeout, cancelled}
use zeromux.Turns.{front_intent}
use zeromux.Turns.Fifo.{intent-settle}

-- The outcome of a metric that is recorded, and a push that is sent.
abbrev pub recorded_outcome : Effect → List RunOutcome
recorded_outcome (record_run_metric m) = m.outcome ∷ []
recorded_outcome _ = []

abbrev pub pushed : Effect → List Effect
pushed (push_turn_done d) = push_turn_done d ∷ []
pushed (push_run_done v) = push_run_done v ∷ []
pushed (push_run_failed k) = push_run_failed k ∷ []
pushed _ = []

-- Whatever event ends a turn that was aborted, its metric has the outcome of the abort, cancelled or
-- timeout, and no push announces a completion or a failure.
pub aborted_turn :
    (cfg : Config) (m : Moment) (evt : AcpEvent) (s : Fanout) (o : RunOutcome)
    → is_boundary evt ≡ true
    → front_intent s.turn_starts ≡ some o
    → (o ≡ cancelled) ⊎ (o ≡ timeout)
    → (collect recorded_outcome (settle_boundary cfg m evt s).1 ≡ o ∷ [])
      × (collect pushed (settle_boundary cfg m evt s).1 ≡ [])
unfolding settle_boundary count_boundary announce_turn reconcile_vault finalize_active
    finalize_calls run_done_push_allowed intent_suppresses_push record_boundary arm_if_idle
    title_once is_boundary classify_outcome build_run_metric
aborted_turn cfg m (turn_result r) s o b e h = ground (arith, intent-settle s.turn_starts o e)
aborted_turn cfg m (error x) s o b e h = ground (arith, intent-settle s.turn_starts o e)
aborted_turn cfg m (exit c) s o b e h = ground (arith, intent-settle s.turn_starts o e)
aborted_turn cfg m _ s o b e h = cc
