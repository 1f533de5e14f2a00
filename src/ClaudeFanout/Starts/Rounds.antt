-- ===== src/ClaudeFanout/Starts/Rounds.antt =====
-- Inputs, the flush and any rounds keep the turns and their metrics paired.
use mathlib.Core.List.{append_assoc, append-nil}
use zeromux.ClaudeFanout.Input.{
  begin_turn, stamp_intent, clear_queue, interrupt_live, finalize_active_run_if_scheduled,
  echo_prompt, note_substantive, scheduled_prompt, collect_prompt, interrupting_prompt,
  passthrough_prompt, plain_prompt, on_prompt, on_input,
}
use zeromux.ClaudeFanout.Ledger.{collect, collect-append}
use zeromux.ClaudeFanout.Loop.{Message, event, input, timer, flush, on_timer, round, rounds}
use zeromux.ClaudeFanout.State.{Config, Fanout, init}
use zeromux.Effects.{Moment}
use zeromux.Inputs.{
  SessionInput, pty_data, pty_resize, prompt, cancel, interrupt_turn, set_queue_mode, timeout_kill,
  approval_reply,
}
use zeromux.Prelude.{ℕ, ◌≡◌, sym, ap, ◌∙◌, none, some, List, [], ◌∷◌, ◌++◌, String, Text, arith}
use zeromux.PromptQueue.{QueueMode, collect as collect_mode, interrupt, passthrough}
use zeromux.RunMetrics.{cancelled, timeout}
use zeromux.Turns.Fifo.{starts-start, starts-set_live_intent}
use zeromux.Turns.{set_live_intent}
use zeromux.ClaudeFanout.Starts.{started_at, measured, pending, Paired}
use zeromux.ClaudeFanout.Starts.Events.{on_event-Paired}

module _ (now : ℕ) where
  begin_turn-Paired : (text : Text) (s : Fanout) → Paired now (begin_turn now text) s
  unfolding begin_turn
  begin_turn-Paired text s = starts-start now s.turn_starts

  finalize_active_run_if_scheduled-Paired :
      (kind : String) (s : Fanout) → Paired now (finalize_active_run_if_scheduled kind) s
  unfolding finalize_active_run_if_scheduled
  finalize_active_run_if_scheduled-Paired kind s = ground (arith, append-nil (pending s))

  scheduled_prompt-Paired :
      (rid : String) (text : Text) (s : Fanout) → Paired now (scheduled_prompt now rid text) s
  unfolding scheduled_prompt clear_queue interrupt_live stamp_intent begin_turn
  scheduled_prompt-Paired rid text s = ground (
    arith,
    starts-start now s.turn_starts,
    starts-start now (set_live_intent cancelled s.turn_starts),
    starts-set_live_intent cancelled s.turn_starts,
  )

  collect_prompt-Paired : (text : Text) (s : Fanout) → Paired now (collect_prompt now text) s
  unfolding collect_prompt note_substantive begin_turn
  collect_prompt-Paired text s =
      ground (arith, starts-start now s.turn_starts, append-nil (pending s))

  interrupting_prompt-Paired :
      (text : Text) (s : Fanout) → Paired now (interrupting_prompt now text) s
  unfolding interrupting_prompt interrupt_live stamp_intent clear_queue begin_turn
      finalize_active_run_if_scheduled
  interrupting_prompt-Paired text s = ground (
    arith,
    starts-start now (set_live_intent cancelled s.turn_starts),
    starts-set_live_intent cancelled s.turn_starts,
  )

  passthrough_prompt-Paired :
      (text : Text) (s : Fanout) → Paired now (passthrough_prompt now text) s
  unfolding passthrough_prompt begin_turn finalize_active_run_if_scheduled
  passthrough_prompt-Paired text s = ground (arith, starts-start now s.turn_starts)

  plain_prompt-Paired :
      (mode : QueueMode) (text : Text) (s : Fanout) → Paired now (plain_prompt mode now text) s
  unfolding plain_prompt
  plain_prompt-Paired interrupt text s =
      ground (arith, interrupting_prompt-Paired text s, collect_prompt-Paired text s)
  plain_prompt-Paired passthrough text s = passthrough_prompt-Paired text s
  plain_prompt-Paired collect_mode text s = collect_prompt-Paired text s

  on_input-Paired : (inp : SessionInput) (s : Fanout) → Paired now (on_input now inp) s
  unfolding on_input on_prompt echo_prompt stamp_intent clear_queue interrupt_live
  on_input-Paired (prompt text (some rid) client_id) s = scheduled_prompt-Paired rid text s
  on_input-Paired (prompt text none client_id) s = plain_prompt-Paired s.queue_mode text s
  on_input-Paired (set_queue_mode mode) s = sym (append-nil (pending s))
  on_input-Paired interrupt_turn s =
      ground (arith, append-nil (pending s), starts-set_live_intent cancelled s.turn_starts)
  on_input-Paired cancel s =
      ground (arith, append-nil (pending s), starts-set_live_intent cancelled s.turn_starts)
  on_input-Paired (timeout_kill r) s =
      ground (arith, append-nil (pending s), starts-set_live_intent timeout s.turn_starts)
  on_input-Paired (pty_data d) s = sym (append-nil (pending s))
  on_input-Paired (pty_resize c r) s = sym (append-nil (pending s))
  on_input-Paired (approval_reply i a) s = sym (append-nil (pending s))

  on_timer-Paired : (cfg : Config) (s : Fanout) → Paired now (on_timer cfg now) s
  unfolding on_timer flush begin_turn
  on_timer-Paired cfg s = ground (arith, append-nil (pending s), starts-start now s.turn_starts)

round-Paired :
    (cfg : Config) (m : Moment) (x : Message) (s : Fanout) → Paired m.now (round cfg (m, x)) s
unfolding round
round-Paired cfg m (event evt) s = on_event-Paired cfg m evt s
round-Paired cfg m (input inp) s = on_input-Paired m.now inp s
round-Paired cfg m timer s = on_timer-Paired m.now cfg s

-- The times at which the task marks a turn as running, over a sequence of rounds.
pub start_times : Config → List (Moment × Message) → Fanout → List ℕ
start_times cfg [] s = []
start_times cfg ((m, x) ∷ xs) s =
    let a = round cfg (m, x) in collect (started_at m.now) (a s).1 ++ start_times cfg xs (a s).0

rounds-Paired :
    (cfg : Config) (xs : List (Moment × Message)) (s : Fanout)
    → collect measured (rounds cfg xs s).1 ++ pending (rounds cfg xs s).0
      ≡ pending s ++ start_times cfg xs s
unfolding rounds start_times
rounds-Paired cfg [] s = sym (append-nil (pending s))
rounds-Paired cfg ((m, x) ∷ xs) s =
    let a = round cfg (m, x) in
    let t = (a s).0 in
    let es = (a s).1 in
    let later = rounds cfg xs t in
    ap (λ l. l ++ pending later.0) (collect-append measured es later.1)
    ∙ append_assoc (collect measured es) (collect measured later.1) (pending later.0)
    ∙ ap (λ l. collect measured es ++ l) (rounds-Paired cfg xs t)
    ∙ sym (append_assoc (collect measured es) (pending t) (start_times cfg xs t))
    ∙ ap (λ l. l ++ start_times cfg xs t) (round-Paired cfg m x s)
    ∙ append_assoc (pending s) (collect (started_at m.now) es) (start_times cfg xs t)

-- After any messages, interrupts and CLI-started turns included: the turns that the task started are
-- those it recorded a metric for followed by those still pending, each once and in order, and every
-- metric has the start time of its own turn.
pub fanout_measures_each_turn :
    (cfg : Config) (xs : List (Moment × Message))
    → collect measured (rounds cfg xs (init cfg)).1 ++ pending (rounds cfg xs (init cfg)).0
      ≡ start_times cfg xs (init cfg)
unfolding init
fanout_measures_each_turn cfg xs = rounds-Paired cfg xs (init cfg)
