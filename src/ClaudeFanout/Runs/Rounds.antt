-- ===== src/ClaudeFanout/Runs/Rounds.antt =====
-- What inputs, the flush and any rounds do to the scheduled runs of the fan-out.
use mathlib.Core.List.{append-nil, append_assoc}
use zeromux.ClaudeFanout.Events.{on_event}
use zeromux.ClaudeFanout.Input.{
  begin_turn, stamp_intent, clear_queue, interrupt_live, finalize_active_run_if_scheduled,
  echo_prompt, note_substantive, scheduled_prompt, collect_prompt, interrupting_prompt,
  passthrough_prompt, plain_prompt, on_prompt, on_input,
}
use zeromux.ClaudeFanout.Invariant.{Inv, init-Inv, round-Inv}
use zeromux.ClaudeFanout.Loop.{Message, event, input, timer, flush, on_timer, round, rounds}
use zeromux.ClaudeFanout.State.{Config, Fanout, Action, init}
use zeromux.Effects.{Moment}
use zeromux.Inputs.{
  SessionInput, pty_data, pty_resize, prompt, cancel, interrupt_turn, set_queue_mode, timeout_kill,
  approval_reply,
}
use zeromux.Prelude.{
  ℕ, ◌≡◌, refl, sym, ap, ◌∙◌, true, Option, none, some, List, [], ◌∷◌, ◌++◌, String, Text, arith,
  is_some,
}
use zeromux.PromptQueue.{
  flush_due, disarm, drain_merged, QueueMode, collect, interrupt, passthrough,
}
use zeromux.ClaudeFanout.Runs.{finalized_ids, id_list, finalized_ids-append, Keeps}
use zeromux.ClaudeFanout.Runs.Events.{on_event-Keeps}

finalize_active_run_if_scheduled-Keeps :
    (kind : String) (s : Fanout) → Keeps (finalize_active_run_if_scheduled kind) s
unfolding finalize_active_run_if_scheduled
finalize_active_run_if_scheduled-Keeps kind s = ground arith

interrupting_prompt-Keeps :
    (now : ℕ) (text : Text) (s : Fanout) → Keeps (interrupting_prompt now text) s
unfolding interrupting_prompt interrupt_live stamp_intent clear_queue begin_turn
    finalize_active_run_if_scheduled
interrupting_prompt-Keeps now text s = ground arith

passthrough_prompt-Keeps :
    (now : ℕ) (text : Text) (s : Fanout) → Keeps (passthrough_prompt now text) s
unfolding passthrough_prompt begin_turn finalize_active_run_if_scheduled
passthrough_prompt-Keeps now text s = ground arith

-- An idle task has no active run, so dropping the id loses none.
collect_prompt-Keeps :
    (now : ℕ) (text : Text) (s : Fanout) → Inv s → Keeps (collect_prompt now text) s
unfolding collect_prompt note_substantive begin_turn
collect_prompt-Keeps now text s v = ground arith

-- The run id that a message brings, and the ids of a whole sequence.
abbrev pub scheduled_of : Message → Option String
scheduled_of (input (prompt text run_id client_id)) = run_id
scheduled_of _ = none

abbrev pub scheduled_ids : List (Moment × Message) → List String
scheduled_ids [] = []
scheduled_ids ((m, x) ∷ xs) = id_list (scheduled_of x) ++ scheduled_ids xs

-- The scheduler hands a process a run only when it has none: `trigger_run` spawns a fresh session.
abbrev pub OneAtATime : Config → List (Moment × Message) → Fanout → Type 0
OneAtATime cfg [] s = Unit {0}
OneAtATime cfg ((m, x) ∷ xs) s =
    (is_some (scheduled_of x) ≡ true → s.active_run_id ≡ none)
    × OneAtATime cfg xs (round cfg (m, x) s).0

-- An action takes on the runs in `ids`.
abbrev Takes : Action → Option String → Fanout → Type 0
Takes a new s =
    finalized_ids (a s).1 ++ id_list (a s).0.active_run_id ≡ id_list s.active_run_id ++ id_list new

Takes-of_Keeps : (a : Action) (s : Fanout) → Keeps a s → Takes a none s
Takes-of_Keeps a s k = k ∙ sym (append-nil (id_list s.active_run_id))

plain_prompt-Keeps :
    (mode : QueueMode) (now : ℕ) (text : Text) (s : Fanout)
    → Inv s
    → Keeps (plain_prompt mode now text) s
unfolding plain_prompt
plain_prompt-Keeps interrupt now text s v =
    ground (arith, interrupting_prompt-Keeps now text s, collect_prompt-Keeps now text s v)
plain_prompt-Keeps passthrough now text s v = passthrough_prompt-Keeps now text s
plain_prompt-Keeps collect now text s v = collect_prompt-Keeps now text s v

prompt-Takes :
    (now : ℕ) (text : Text) (run_id client_id : Option String) (s : Fanout)
    → Inv s
    → (is_some run_id ≡ true → s.active_run_id ≡ none)
    → Takes (on_prompt now text run_id client_id) run_id s
unfolding on_prompt echo_prompt scheduled_prompt clear_queue interrupt_live stamp_intent begin_turn
prompt-Takes now text (some rid) client_id s v one = ground (arith, one refl)
prompt-Takes now text none client_id s v one =
    Takes-of_Keeps (plain_prompt s.queue_mode now text) s
      (plain_prompt-Keeps s.queue_mode now text s v)

on_input-Takes :
    (now : ℕ) (inp : SessionInput) (s : Fanout)
    → Inv s
    → (is_some (scheduled_of (input inp)) ≡ true → s.active_run_id ≡ none)
    → Takes (on_input now inp) (scheduled_of (input inp)) s
unfolding on_input stamp_intent clear_queue interrupt_live
on_input-Takes now (prompt text run_id client_id) s v one =
    prompt-Takes now text run_id client_id s v one
on_input-Takes now (set_queue_mode mode) s v one = ground arith
on_input-Takes now interrupt_turn s v one = ground arith
on_input-Takes now cancel s v one = ground arith
on_input-Takes now (timeout_kill r) s v one = ground arith
on_input-Takes now (pty_data d) s v one = ground arith
on_input-Takes now (pty_resize c r) s v one = ground arith
on_input-Takes now (approval_reply i a) s v one = ground arith

-- The merged prompt of a flush drops no run: a window is open only while idle.
on_timer-Keeps : (cfg : Config) (now : ℕ) (s : Fanout) → Inv s → Keeps (on_timer cfg now) s
unfolding on_timer flush flush_due disarm drain_merged begin_turn
on_timer-Keeps cfg now s v = ground arith

round-Takes :
    (cfg : Config) (m : Moment) (x : Message) (s : Fanout)
    → Inv s
    → (is_some (scheduled_of x) ≡ true → s.active_run_id ≡ none)
    → Takes (round cfg (m, x)) (scheduled_of x) s
unfolding round
round-Takes cfg m (event evt) s v one =
    Takes-of_Keeps (on_event cfg m evt) s (on_event-Keeps cfg m evt s)
round-Takes cfg m (input inp) s v one = on_input-Takes m.now inp s v one
round-Takes cfg m timer s v one =
    Takes-of_Keeps (on_timer cfg m.now) s (on_timer-Keeps cfg m.now s v)

rounds-Takes :
    (cfg : Config) (xs : List (Moment × Message)) (s : Fanout)
    → Inv s
    → OneAtATime cfg xs s
    → finalized_ids (rounds cfg xs s).1 ++ id_list (rounds cfg xs s).0.active_run_id
      ≡ id_list s.active_run_id ++ scheduled_ids xs
unfolding rounds
rounds-Takes cfg [] s v one = sym (append-nil (id_list s.active_run_id))
rounds-Takes cfg ((m, x) ∷ xs) s v one =
    let a = round cfg (m, x) in
    let rest = rounds-Takes cfg xs (a s).0 (round-Inv cfg (m, x) s v) one.1 in
    simp (finalized_ids-append, append_assoc)
      (ap (λ ids. finalized_ids (a s).1 ++ ids) rest
        ∙ sym (
            append_assoc (finalized_ids (a s).1) (id_list (a s).0.active_run_id) (scheduled_ids xs))
        ∙ ap (λ ids. ids ++ scheduled_ids xs) (round-Takes cfg m x s v one.0)
        ∙ append_assoc (id_list s.active_run_id) (id_list (scheduled_of x)) (scheduled_ids xs))

-- A task that gets a scheduled run only while it has none finalizes every run it was given, exactly
-- once and in the order of arrival, but for the last one while its turn still runs.
pub fanout_finalizes_once :
    (cfg : Config) (xs : List (Moment × Message))
    → OneAtATime cfg xs (init cfg)
    → finalized_ids (rounds cfg xs (init cfg)).1
        ++ id_list (rounds cfg xs (init cfg)).0.active_run_id
      ≡ scheduled_ids xs
unfolding init
fanout_finalizes_once cfg xs one = rounds-Takes cfg xs (init cfg) (init-Inv cfg) one
