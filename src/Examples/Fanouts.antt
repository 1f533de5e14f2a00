-- ===== src/Examples/Fanouts.antt =====
-- The theorems on the fan-out, at a queued prompt and at a scheduled run.
use zeromux.Acp.{exit, is_boundary}
use zeromux.ClaudeFanout.Aborts.{recorded_outcome, pushed, aborted_turn}
use zeromux.ClaudeFanout.Boundary.{settle_boundary}
use zeromux.ClaudeFanout.Ledger.{collect}
use zeromux.ClaudeFanout.Starts.{measured, pending}
use zeromux.ClaudeFanout.Starts.Rounds.{start_times, fanout_measures_each_turn}
use zeromux.PromptQueue.{collect as collect_mode}
use zeromux.RunMetrics.{cancelled}
use zeromux.Turns.{front_intent}
use zeromux.ClaudeFanout.Invariant.{Inv, fanout-Inv}
use zeromux.ClaudeFanout.Loop.{rounds}
use zeromux.ClaudeFanout.Mirror.{turn_view, fanout_view}
use zeromux.ClaudeFanout.Mirror.Rounds.{serve_rounds, session_mirrors_fanout}
use zeromux.ClaudeFanout.Runs.{finalized_ids, id_list}
use zeromux.ClaudeFanout.Runs.Rounds.{scheduled_ids, fanout_finalizes_once}
use zeromux.ClaudeFanout.State.{init, Fanout}
use zeromux.Examples.Data.{config, queued_run, scheduled_run, session, serializer, at}
use zeromux.Prelude.{◌≡◌, refl, arith, ◌++◌, ltb, length, none, some, [], ◌∷◌, true, false, inl}
use zeromux.Session.Turn.{turn_is_running}

fanout-Inv_example : Inv (rounds config queued_run (init config)).0
fanout-Inv_example = fanout-Inv config queued_run

fanout_finalizes_once_example :
    finalized_ids (rounds config scheduled_run (init config)).1
      ++ id_list (rounds config scheduled_run (init config)).0.active_run_id
    ≡ scheduled_ids scheduled_run
unfolding init
fanout_finalizes_once_example = fanout_finalizes_once config scheduled_run (ground arith)

session_mirrors_fanout_example :
    let s = (rounds config queued_run (init config)).0 in
    let v = serve_rounds serializer config queued_run (init config) session in
    (turn_view v.running ≡ fanout_view s) × (turn_is_running v ≡ ltb 0 (length s.turn_starts))
session_mirrors_fanout_example = session_mirrors_fanout serializer config queued_run session refl

fanout_measures_each_turn_example :
    collect measured (rounds config queued_run (init config)).1
      ++ pending (rounds config queued_run (init config)).0
    ≡ start_times config queued_run (init config)
fanout_measures_each_turn_example = fanout_measures_each_turn config queued_run

-- A turn that the user cancelled, before its process exits.
abbrev cancelled_turn : Fanout
cancelled_turn = record {
  token_saved = true;
  turn_seq = 1;
  local_running = true;
  boundary_count = 0;
  active_run_id = none;
  first_substantive_prompt = none;
  titled = false;
  queue = record { pending = []; debounce = none; hard_cap = none };
  queue_mode = collect_mode;
  turn_starts = record { ms = 10; intent = some cancelled; external = false; echoed = true } ∷ [];
  pending_origin = false;
  prev_cost = some 0;
  first_cost_seen = false;
}

aborted_turn_example :
    (collect recorded_outcome (settle_boundary config (at 90) (exit 1) cancelled_turn).1
      ≡ cancelled ∷ [])
    × (collect pushed (settle_boundary config (at 90) (exit 1) cancelled_turn).1 ≡ [])
unfolding is_boundary front_intent
aborted_turn_example =
    aborted_turn config (at 90) (exit 1) cancelled_turn cancelled refl refl (inl refl)
