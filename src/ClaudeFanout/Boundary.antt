-- ===== src/ClaudeFanout/Boundary.antt =====
-- The end of a turn in `spawn_acp_fanout`: what a boundary event that is not skipped does.
use zeromux.Acp.{AcpEvent, turn_result, error, exit, is_boundary}
use zeromux.ClaudeFanout.State.{Config, Fanout, Action}
use zeromux.Effects.{
  Moment, Effect, mark_turn, finalize_run, push_turn_done, push_run_done, push_run_failed,
  mark_vault_dirty, settle_posture, record_run_metric, title_session, in_order,
}
use zeromux.Prelude.{
  ℕ, ◌+◌, ◌-◌, String, str_eq, Bool, true, false, not, ◌&&◌, Option, none, some, List, [], ◌∷◌,
  ◌++◌, leb, is_some, is_none, if◌then◌else◌,
}
use zeromux.PromptQueue.{arm}
use zeromux.RunMetrics.{
  RunOutcome, completed, errored, timeout, cancelled, TerminalEvt, result_evt, error_evt, exit_evt,
  classify_outcome, diff_cost_at_boundary, build_run_metric,
}
use zeromux.Turns.{idle, front, front_intent, settle}
use zeromux.Verdict.{extract_verdict}

-- A turn that the user or a watchdog aborted announces no completion and no failure.
unfoldable pub intent_suppresses_push : Option RunOutcome → Bool
intent_suppresses_push (some cancelled) = true
intent_suppresses_push (some timeout) = true
intent_suppresses_push (some completed) = false
intent_suppresses_push (some errored) = false
intent_suppresses_push none = false

unfoldable pub run_done_push_allowed : Option RunOutcome → Bool
unfolding intent_suppresses_push
run_done_push_allowed intent = not (intent_suppresses_push intent)

unfoldable pub posture_settles : ℕ → ℕ → Bool → Bool
posture_settles boundary_count turn_seq settled = leb turn_seq boundary_count && settled

-- `boundary_count` is clamped to `turn_seq` by the boundary that settles the live turn.
unfoldable pub count_boundary : Action
count_boundary s =
    let n = s.boundary_count + 1 in
    if leb s.turn_seq n
    then (
      record s { boundary_count = s.turn_seq; local_running = false },
      mark_turn idle s.turn_seq ∷ [],
    )
    else (record s { boundary_count = n }, [])

abbrev pub caught_up : Fanout → Bool
caught_up s = leb s.turn_seq s.boundary_count

unfoldable pub turn_duration : ℕ → Option ℕ → ℕ
turn_duration now none = 0
turn_duration now (some started) = now - started

-- A clock that went back gives 0 here and a negative number in the source; the only reader,
-- `should_push_turn_done`, refuses both.
unfoldable pub announce_turn : ℕ → Action
unfolding turn_duration intent_suppresses_push
announce_turn now s = (
  s,
  if caught_up s && is_none s.active_run_id
      then if intent_suppresses_push (front_intent s.turn_starts)
        then []
        else push_turn_done (turn_duration now (front s.turn_starts)) ∷ []
      else [],
)

unfoldable pub reconcile_vault : Action
reconcile_vault s = (s, if caught_up s then mark_vault_dirty ∷ [] else [])

-- The calls that finalize a scheduled run, by the kind of its terminal event.
unfoldable pub finalize_calls : String → AcpEvent → Option RunOutcome → List Effect
unfolding run_done_push_allowed
finalize_calls rid (turn_result r) intent =
    let verdict = extract_verdict r.text in
    finalize_run rid "succeeded" verdict (if is_some verdict then none else some "no_verdict")
    ∷ (if run_done_push_allowed intent then push_run_done verdict ∷ [] else [])
finalize_calls rid (error _) intent =
    finalize_run rid "failed" none (some "cli_error")
    ∷ (if intent_suppresses_push intent then [] else push_run_failed "cli_error" ∷ [])
finalize_calls rid (exit _) intent =
    finalize_run rid "failed" none (some "cli_exited")
    ∷ (if intent_suppresses_push intent then [] else push_run_failed "cli_exited" ∷ [])
finalize_calls rid _ intent = []

-- `active_run_id.take()`; an event that is not terminal puts the id back.
unfoldable pub finalize_active : AcpEvent → Action
unfolding finalize_calls is_boundary
finalize_active evt s = elim s.active_run_id [
  | none ↦ (s, [])
  | some rid ↦ (
    record s { active_run_id = if is_boundary evt then none else some rid },
    finalize_calls rid evt (front_intent s.turn_starts),
  )
]

unfoldable pub terminal_of : AcpEvent → TerminalEvt
terminal_of (turn_result r) = result_evt
terminal_of (error m) = error_evt
terminal_of _ = exit_evt

unfoldable pub intent_of : Option (ℕ × Option RunOutcome) → Option RunOutcome
intent_of none = none
intent_of (some (_, intent)) = intent

-- What a `Result` reports of its cost and its tokens.
abbrev pub Figures : Type 0
Figures = Option ℕ × Option ℕ × Option ℕ

unfoldable pub figures_of : AcpEvent → Figures
figures_of (turn_result r) = (r.cost_usd, r.tokens_in, r.tokens_out)
figures_of _ = (none, none, none)

unfoldable pub failure_kind_of : RunOutcome → AcpEvent → Option String
failure_kind_of errored (exit _) = some "cli_exited"
failure_kind_of errored _ = some "cli_error"
failure_kind_of _ _ = none

unfoldable pub metric_calls :
    String
    → String
    → String
    → Moment
    → ℕ
    → RunOutcome
    → AcpEvent
    → Option ℕ
    → Option (ℕ × Option RunOutcome)
    → List Effect
unfolding figures_of failure_kind_of
metric_calls sid dir label m seq outcome evt cost none = []
metric_calls sid dir label m seq outcome evt cost (some (started, _)) =
    let (_, tin, tout) = figures_of evt in
    record_run_metric (
      build_run_metric m.fresh_id sid dir label seq started m.now outcome
        (failure_kind_of outcome evt) cost tin tout)
    ∷ []

-- The metric of one boundary: the oldest pending turn is settled, the cost baseline moves only if
-- there was one, and the posture only if this boundary settles the live turn.
unfoldable pub record_boundary : Config → Moment → AcpEvent → Action
unfolding terminal_of intent_of figures_of failure_kind_of metric_calls posture_settles
record_boundary cfg m evt s =
    let (settled, left) = settle s.turn_starts in
    let outcome = classify_outcome (terminal_of evt) (intent_of settled) in
    let raw_cost = (figures_of evt).0 in
    let claude = str_eq cfg.agent_label "claude-code" in
    let (delta, new_prev, new_seen) =
      diff_cost_at_boundary s.prev_cost raw_cost s.first_cost_seen cfg.is_resumed
        (is_some settled) in
    let posture : List Effect =
      if posture_settles s.boundary_count s.turn_seq (is_some settled)
      then settle_posture outcome ∷ []
      else [] in
    (
      record s {
        turn_starts = left;
        prev_cost = if claude then new_prev else s.prev_cost;
        first_cost_seen = if claude then new_seen else s.first_cost_seen;
      },
      posture
          ++ metric_calls cfg.sid cfg.work_dir cfg.agent_label m s.turn_seq outcome evt
              (if claude then delta else raw_cost) settled,
    )

unfoldable pub arm_if_idle : ℕ → Action
arm_if_idle now s = (record s { queue = if s.local_running then s.queue else arm now s.queue }, [])

-- One attempt to title the session, at its first `Result` after a substantive prompt. The manager
-- makes it only if the name is still automatic.
unfoldable pub title_once : AcpEvent → Action
title_once (turn_result r) s = if s.titled then (s, []) else elim s.first_substantive_prompt [
  | none ↦ (s, [])
  | some first ↦ (record s { titled = true }, title_session first r.text ∷ [])
]
title_once _ s = (s, [])

abbrev pub boundary_actions : Config → Moment → AcpEvent → List Action
boundary_actions cfg m evt =
    count_boundary
    ∷ announce_turn m.now
    ∷ reconcile_vault
    ∷ finalize_active evt
    ∷ record_boundary cfg m evt
    ∷ arm_if_idle m.now
    ∷ title_once evt
    ∷ []

unfoldable pub settle_boundary : Config → Moment → AcpEvent → Action
settle_boundary cfg m evt = in_order (boundary_actions cfg m evt)
