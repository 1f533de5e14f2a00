-- ===== src/ClaudeFanout/Loop.antt =====
-- The rounds of the `select!` loop of `spawn_acp_fanout`: which branch is ready is up to the runtime,
-- so a run is any sequence of messages.
use zeromux.Acp.{AcpEvent}
use zeromux.ClaudeFanout.Events.{on_event}
use zeromux.ClaudeFanout.Input.{begin_turn, on_input, set_active}
use zeromux.ClaudeFanout.State.{Config, Action, init}
use zeromux.Effects.{Moment, Effect, mark_fanout_ended, ◌>>◌}
use zeromux.Inputs.{SessionInput}
use zeromux.Prelude.{ℕ, none, List, [], ◌∷◌, ◌++◌, is_empty, if◌then◌else◌}
use zeromux.PromptQueue.{disarm, drain_merged, flush_due}

-- The flush branch: both timers off, and the queued prompts go out as one merged turn.
unfoldable pub flush : Config → ℕ → Action
flush cfg now s =
    let (merged, drained) = drain_merged cfg.hhmm (disarm s.queue) in
    if is_empty s.queue.pending
    then (record s { queue = disarm s.queue }, [])
    else (set_active none >> begin_turn now merged) (record s { queue = drained })

-- The branch is guarded by `queue.debounce.is_some()` and ready when a timer has fired.
unfoldable pub on_timer : Config → ℕ → Action
on_timer cfg now s = if flush_due now s.queue then flush cfg now s else (s, [])

pub data Message : Type 0 where
  event : AcpEvent → Message
  input : SessionInput → Message
  timer : Message

unfoldable pub round : Config → Moment × Message → Action
round cfg (m, event evt) = on_event cfg m evt
round cfg (m, input inp) = on_input m.now inp
round cfg (m, timer) = on_timer cfg m.now

unfoldable pub rounds : Config → List (Moment × Message) → Action
rounds cfg [] s = (s, [])
rounds cfg (x ∷ xs) s = (round cfg x >> rounds cfg xs) s

-- The task's life: its rounds until a channel closes, and then the end of the session's running state.
unfoldable pub fanout_task : Config → List (Moment × Message) → List Effect
fanout_task cfg xs = (rounds cfg xs (init cfg)).1 ++ mark_fanout_ended ∷ []
