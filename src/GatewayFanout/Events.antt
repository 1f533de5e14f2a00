-- ===== src/GatewayFanout/Events.antt =====
-- What `spawn_crew_fanout` and `spawn_codex_fanout` do with an event of their process.
use zeromux.Acp.{AcpEvent, is_boundary}
use zeromux.ClaudeFanout.Boundary.{
  intent_suppresses_push, posture_settles, terminal_of, intent_of, figures_of, metric_calls,
  turn_duration,
}
use zeromux.ClaudeFanout.Events.{is_result}
use zeromux.Effects.{
  Moment, Effect, emit, log_result_event, mark_turn, set_resume_token, push_turn_done,
  mark_vault_dirty, settle_posture, in_order, when,
}
use zeromux.GatewayFanout.State.{Settings, Gateway, Action, resume_token_of}
use zeromux.Prelude.{
  ℕ, ◌+◌, Bool, true, none, some, List, [], ◌∷◌, ◌++◌, leb, is_some, if◌then◌else◌, false,
}
use zeromux.PromptQueue.{arm}
use zeromux.RunMetrics.{classify_outcome}
use zeromux.Turns.{idle, front, front_intent, settle}

unfoldable pub log_result : AcpEvent → Action
unfolding is_result
log_result evt s = (s, if is_result evt then log_result_event evt ∷ [] else [])

unfoldable pub backfill_token : Settings → AcpEvent → Action
backfill_token set evt s =
    if s.token_saved then (s, []) else elim (resume_token_of set.backend evt) [
      | none ↦ (s, [])
      | some token ↦ (record s { token_saved = true }, set_resume_token token ∷ [])
    ]

unfoldable pub emit_event : AcpEvent → Action
emit_event evt s = (s, emit s.turn_seq evt ∷ [])

-- `boundary_count` is clamped to `turn_seq` by the boundary that settles the live turn.
unfoldable pub count_boundary : Action
count_boundary s =
    let n = s.boundary_count + 1 in
    if leb s.turn_seq n
    then (
      record s { boundary_count = s.turn_seq; local_running = false },
      mark_turn idle s.turn_seq ∷ [],
    )
    else (record s { boundary_count = n }, [])

abbrev pub caught_up : Gateway → Bool
caught_up s = leb s.turn_seq s.boundary_count

-- `maybe_push_turn_done`: nothing for a turn that was aborted.
unfoldable pub announce_turn : ℕ → Action
unfolding turn_duration intent_suppresses_push
announce_turn now s = (
  s,
  if caught_up s
      then if intent_suppresses_push (front_intent s.turn_starts)
        then []
        else push_turn_done (turn_duration now (front s.turn_starts)) ∷ []
      else [],
)

unfoldable pub reconcile_vault : Action
reconcile_vault s = (s, if caught_up s then mark_vault_dirty ∷ [] else [])

-- The oldest pending turn is settled; its cost is the one reported, since these agents do not report a
-- running total.
unfoldable pub record_boundary : Settings → Moment → AcpEvent → Action
unfolding terminal_of intent_of figures_of metric_calls posture_settles
record_boundary set m evt s =
    let (settled, left) = settle s.turn_starts in
    let outcome = classify_outcome (terminal_of evt) (intent_of settled) in
    let posture : List Effect =
      if posture_settles s.boundary_count s.turn_seq (is_some settled)
      then settle_posture outcome ∷ []
      else [] in
    (
      record s { turn_starts = left },
      posture
          ++ metric_calls set.sid set.work_dir set.agent_label m s.turn_seq outcome evt
              (figures_of evt).0 settled,
    )

unfoldable pub arm_if_idle : ℕ → Action
arm_if_idle now s = (record s { queue = if s.local_running then s.queue else arm now s.queue }, [])

abbrev pub boundary_actions : Settings → Moment → AcpEvent → List Action
boundary_actions set m evt =
    count_boundary
    ∷ announce_turn m.now
    ∷ reconcile_vault
    ∷ record_boundary set m evt
    ∷ arm_if_idle m.now
    ∷ []

unfoldable pub settle_boundary : Settings → Moment → AcpEvent → Action
settle_boundary set m evt = in_order (boundary_actions set m evt)

abbrev pub event_actions : Settings → Moment → AcpEvent → List Action
event_actions set m evt =
    log_result evt
    ∷ backfill_token set evt
    ∷ emit_event evt
    ∷ when (is_boundary evt) (settle_boundary set m evt)
    ∷ []

unfoldable pub on_event : Settings → Moment → AcpEvent → Action
on_event set m evt = in_order (event_actions set m evt)
