-- ===== src/ClaudeFanout/Mirror/Rounds.antt =====
-- The session mirrors its fan-out across inputs and the flush, and so across any rounds.
use zeromux.ClaudeFanout.Input.{
  begin_turn, stamp_intent, clear_queue, interrupt_live, finalize_active_run_if_scheduled,
  echo_prompt, note_substantive, set_active, scheduled_prompt, collect_prompt, interrupting_prompt,
  passthrough_prompt, plain_prompt, on_prompt, on_input,
}
use zeromux.ClaudeFanout.Invariant.{fanout-Inv}
use zeromux.ClaudeFanout.Loop.{Message, event, input, timer, flush, on_timer, round, rounds}
use zeromux.ClaudeFanout.Manager.{Serializer, serve_call, serve_calls}
use zeromux.ClaudeFanout.State.{Config, Fanout, init}
use zeromux.Effects.{Moment, ◌>>◌, when}
use zeromux.Inputs.{
  SessionInput, pty_data, pty_resize, prompt, cancel, interrupt_turn, set_queue_mode, timeout_kill,
  approval_reply,
}
use zeromux.Prelude.{
  ℕ, ◌≡◌, ◌∙◌, Option, none, some, List, [], ◌∷◌, String, Text, arith, ltb, length,
}
use zeromux.PromptQueue.{QueueMode, collect, interrupt, passthrough}
use zeromux.Session.{Session}
use zeromux.Session.Turn
use zeromux.Turns.{idle}
use zeromux.ClaudeFanout.Mirror.{
  turn_view, fanout_view, emit-view, Mirrors, >>-Mirrors, when-Mirrors,
}
use zeromux.ClaudeFanout.Mirror.Events.{on_event-Mirrors}

module _ (json : Serializer) (now : ℕ) where
  begin_turn-Mirrors : (t : ℕ) (text : Text) (s : Fanout) → Mirrors json now (begin_turn t text) s
  unfolding begin_turn serve_calls serve_call Turn.apply_turn
  begin_turn-Mirrors t text s u e = ground arith

  interrupt_live-Mirrors : (s : Fanout) → Mirrors json now interrupt_live s
  unfolding interrupt_live stamp_intent serve_calls serve_call
  interrupt_live-Mirrors s u e = e

  clear_queue-Mirrors : (s : Fanout) → Mirrors json now clear_queue s
  unfolding clear_queue serve_calls
  clear_queue-Mirrors s u e = e

  set_active-Mirrors : (rid : Option String) (s : Fanout) → Mirrors json now (set_active rid) s
  unfolding serve_calls
  set_active-Mirrors rid s u e = e

  finalize_active_run_if_scheduled-Mirrors :
      (kind : String) (s : Fanout) → Mirrors json now (finalize_active_run_if_scheduled kind) s
  unfolding finalize_active_run_if_scheduled serve_calls serve_call
  finalize_active_run_if_scheduled-Mirrors kind s u e = ground arith

  collect_prompt-Mirrors :
      (t : ℕ) (text : Text) (s : Fanout) → Mirrors json now (collect_prompt t text) s
  unfolding collect_prompt note_substantive begin_turn serve_calls serve_call Turn.apply_turn
  collect_prompt-Mirrors t text s u e = ground arith

  interrupting_prompt-Mirrors :
      (t : ℕ) (text : Text) (s : Fanout) → Mirrors json now (interrupting_prompt t text) s
  unfolding interrupting_prompt
  interrupting_prompt-Mirrors t text s =
      let rid = finalize_active_run_if_scheduled "interrupted" in
      >>-Mirrors json now interrupt_live (clear_queue >> rid >> begin_turn t text) s
        (interrupt_live-Mirrors s)
        (>>-Mirrors json now clear_queue (rid >> begin_turn t text) _ (clear_queue-Mirrors _) (
          >>-Mirrors json now rid (begin_turn t text) _
            (finalize_active_run_if_scheduled-Mirrors "interrupted" _)
            (begin_turn-Mirrors t text _)))

  passthrough_prompt-Mirrors :
      (t : ℕ) (text : Text) (s : Fanout) → Mirrors json now (passthrough_prompt t text) s
  unfolding passthrough_prompt
  passthrough_prompt-Mirrors t text s =
      >>-Mirrors json now (finalize_active_run_if_scheduled "interrupted") (begin_turn t text) s
        (finalize_active_run_if_scheduled-Mirrors "interrupted" s) (begin_turn-Mirrors t text _)

  plain_prompt-Mirrors :
      (mode : QueueMode) (t : ℕ) (text : Text) (s : Fanout)
      → Mirrors json now (plain_prompt mode t text) s
  unfolding plain_prompt
  plain_prompt-Mirrors interrupt t text s u e =
      ground (arith, interrupting_prompt-Mirrors t text s u e, collect_prompt-Mirrors t text s u e)
  plain_prompt-Mirrors passthrough t text s u e = passthrough_prompt-Mirrors t text s u e
  plain_prompt-Mirrors collect t text s u e = collect_prompt-Mirrors t text s u e

  scheduled_prompt-Mirrors :
      (t : ℕ) (rid : String) (text : Text) (s : Fanout)
      → Mirrors json now (scheduled_prompt t rid text) s
  unfolding scheduled_prompt
  scheduled_prompt-Mirrors t rid text s =
      let live = when s.local_running interrupt_live in
      let s1 = (clear_queue s).0 in
      let s2 = (set_active (some rid) s1).0 in
      >>-Mirrors json now clear_queue (set_active (some rid) >> live >> begin_turn t text) s
        (clear_queue-Mirrors s)
        (>>-Mirrors json now (set_active (some rid)) (live >> begin_turn t text) s1
          (set_active-Mirrors (some rid) s1)
          (>>-Mirrors json now live (begin_turn t text) s2
            (when-Mirrors json now s.local_running interrupt_live interrupt_live-Mirrors s2)
            (begin_turn-Mirrors t text (live s2).0)))

  on_prompt-Mirrors :
      (t : ℕ) (text : Text) (run_id client_id : Option String) (s : Fanout)
      → Mirrors json now (on_prompt t text run_id client_id) s
  unfolding on_prompt echo_prompt serve_calls
  on_prompt-Mirrors t text (some rid) client_id s u e =
      scheduled_prompt-Mirrors t rid text s _ (emit-view json now _ _ u ∙ e)
  on_prompt-Mirrors t text none client_id s u e =
      plain_prompt-Mirrors s.queue_mode t text s _ (emit-view json now _ _ u ∙ e)

  on_input-Mirrors : (t : ℕ) (inp : SessionInput) (s : Fanout) → Mirrors json now (on_input t inp) s
  unfolding on_input serve_calls serve_call Turn.mark_queue_mode stamp_intent
  on_input-Mirrors t (prompt text run_id client_id) s u e =
      on_prompt-Mirrors t text run_id client_id s u e
  on_input-Mirrors t (set_queue_mode mode) s u e = ground arith
  on_input-Mirrors t interrupt_turn s u e =
      >>-Mirrors json now (when s.local_running interrupt_live) clear_queue s
        (when-Mirrors json now s.local_running interrupt_live interrupt_live-Mirrors s)
        (clear_queue-Mirrors _) u e
  on_input-Mirrors t cancel s u e = e
  on_input-Mirrors t (timeout_kill r) s u e = e
  on_input-Mirrors t (pty_data d) s u e = e
  on_input-Mirrors t (pty_resize c r) s u e = e
  on_input-Mirrors t (approval_reply i a) s u e = e

  on_timer-Mirrors : (cfg : Config) (t : ℕ) (s : Fanout) → Mirrors json now (on_timer cfg t) s
  unfolding on_timer flush begin_turn serve_calls serve_call Turn.apply_turn
  on_timer-Mirrors cfg t s u e = ground arith

  round-Mirrors :
      (cfg : Config) (x : Moment × Message) (s : Fanout) → Mirrors json now (round cfg x) s
  unfolding round
  round-Mirrors cfg (m, event evt) s u e = on_event-Mirrors json now cfg m evt s u e
  round-Mirrors cfg (m, input inp) s u e = on_input-Mirrors m.now inp s u e
  round-Mirrors cfg (m, timer) s u e = on_timer-Mirrors cfg m.now s u e

-- The session after the calls of a sequence of rounds, each served at the time of its round.
unfoldable pub serve_rounds :
    Serializer → Config → List (Moment × Message) → Fanout → Session → Session
serve_rounds json cfg [] s u = u
serve_rounds json cfg ((m, x) ∷ xs) s u =
    let a = round cfg (m, x) in serve_rounds json cfg xs (a s).0 (serve_calls json m.now (a s).1 u)

rounds-Mirrors :
    (json : Serializer) (cfg : Config) (xs : List (Moment × Message)) (s : Fanout) (u : Session)
    → turn_view u.running ≡ fanout_view s
    → turn_view (serve_rounds json cfg xs s u).running ≡ fanout_view (rounds cfg xs s).0
unfolding serve_rounds rounds
rounds-Mirrors json cfg [] s u e = e
rounds-Mirrors json cfg ((m, x) ∷ xs) s u e =
    let a = round cfg (m, x) in
    rounds-Mirrors json cfg xs (a s).0 (serve_calls json m.now (a s).1 u)
      (round-Mirrors json m.now cfg (m, x) s u e)

-- After any messages the session shows the live turn of its task: its state, its number and the queue
-- mode, provided that it was idle at turn 0 in collect mode when the process was spawned. It counts as
-- running exactly while a started turn has not ended.
pub session_mirrors_fanout :
    (json : Serializer) (cfg : Config) (xs : List (Moment × Message)) (u : Session)
    → turn_view u.running ≡ some (idle, 0, collect)
    → let s = (rounds cfg xs (init cfg)).0 in
      let v = serve_rounds json cfg xs (init cfg) u in
      (turn_view v.running ≡ fanout_view s)
      × (Turn.turn_is_running v ≡ ltb 0 (length s.turn_starts))
unfolding init Turn.turn_is_running
session_mirrors_fanout json cfg xs u e =
    let shown = rounds-Mirrors json cfg xs (init cfg) u e in
    (shown, ground (arith, shown, fanout-Inv cfg xs))
