-- ===== src/GatewayFanout/Invariant.antt =====
-- What holds of the variables of `spawn_crew_fanout` and `spawn_codex_fanout` between two rounds.
use zeromux.Acp.{AcpEvent, is_boundary}
use zeromux.ClaudeFanout.Invariant.{IsWindowed, is_empty-enqueue}
use zeromux.ClaudeFanout.Loop.{Message, event, input, timer}
use zeromux.Effects.{Moment}
use zeromux.GatewayFanout.Events.{
  log_result, backfill_token, emit_event, count_boundary, announce_turn, reconcile_vault,
  record_boundary, arm_if_idle, settle_boundary, on_event,
}
use zeromux.GatewayFanout.Input.{
  begin_turn, stamp_intent, clear_queue, interrupt_live, note_first_prompt, echo_prompt,
  scheduled_prompt, collect_prompt, plain_prompt, on_prompt, on_input, flush, on_timer, round,
  rounds,
}
use zeromux.GatewayFanout.State.{Backend, crew_gateway, codex_server, Settings, Gateway, init}
use zeromux.Inputs.{
  SessionInput, pty_data, pty_resize, prompt, cancel, interrupt_turn, set_queue_mode, timeout_kill,
  approval_reply,
}
use zeromux.Prelude.{
  ℕ, ◌+◌, ◌≡◌, ◌≢◌, refl, inl, inr, Option, none, some, List, [], ◌∷◌, String, Text, arith,
  Bool-cases, ltb, length,
}
use zeromux.PromptQueue.{
  QueueMode, collect, interrupt, passthrough, effective, arm, disarm, clear, enqueue, bump_debounce,
  drain_merged, flush_due,
}
use zeromux.RunMetrics.{timeout, cancelled}
use zeromux.Turns.{set_live_intent}
use zeromux.Turns.Fifo.{length-settle, length-start, length-set_live_intent}

pub record Inv (s : Gateway) : Type 0 where
  pub counted : length s.turn_starts + s.boundary_count ≡ s.turn_seq
  pub busy : s.local_running ≡ ltb s.boundary_count s.turn_seq
  pub windowed : IsWindowed s.local_running s.queue
  pub no_passthrough : s.queue_mode ≢ passthrough

init-Inv : Inv init
unfolding init
init-Inv = ground arith

settle_boundary-Inv :
    (set : Settings) (m : Moment) (evt : AcpEvent) (s : Gateway)
    → Inv s
    → Inv (settle_boundary set m evt s).0
unfolding settle_boundary count_boundary announce_turn reconcile_vault record_boundary arm_if_idle
    arm
settle_boundary-Inv set m evt s v = ground (arith, length-settle s.turn_starts)

backfill_token-Inv :
    (set : Settings) (evt : AcpEvent) (s : Gateway) → Inv s → Inv (backfill_token set evt s).0
unfolding backfill_token
backfill_token-Inv set evt s v = ground arith

on_event-Inv :
    (set : Settings) (m : Moment) (evt : AcpEvent) (s : Gateway)
    → Inv s
    → Inv (on_event set m evt s).0
unfolding on_event log_result emit_event
on_event-Inv set m evt s v =
    let w = backfill_token-Inv set evt s v in
    elim (Bool-cases (is_boundary evt)) [
      | inl e ↦ rw e (settle_boundary-Inv set m evt (backfill_token set evt s).0 w)
      | inr e ↦ rw e w
    ]

note_first_prompt-Inv :
    (b : Backend) (run_id : Option String) (s : Gateway)
    → Inv s
    → Inv (note_first_prompt b run_id s).0
unfolding note_first_prompt
note_first_prompt-Inv crew_gateway run_id s v = ground arith
note_first_prompt-Inv codex_server run_id s v = v

scheduled_prompt-Inv :
    (now : ℕ) (text : Text) (s : Gateway) → Inv s → Inv (scheduled_prompt now text s).0
unfolding scheduled_prompt clear_queue clear interrupt_live stamp_intent begin_turn
scheduled_prompt-Inv now text s v = ground (
  arith,
  length-set_live_intent cancelled s.turn_starts,
  length-start now s.turn_starts,
  length-start now (set_live_intent cancelled s.turn_starts),
)

collect_prompt-Inv :
    (now : ℕ) (text : Text) (s : Gateway) → Inv s → Inv (collect_prompt now text s).0
unfolding collect_prompt begin_turn enqueue bump_debounce
collect_prompt-Inv now text s v =
    ground (arith, length-start now s.turn_starts, is_empty-enqueue s.queue.pending)

plain_prompt-Inv :
    (mode : QueueMode) (now : ℕ) (text : Text) (s : Gateway)
    → mode ≢ passthrough
    → Inv s
    → Inv (plain_prompt mode now text s).0
unfolding plain_prompt interrupt_live stamp_intent clear_queue clear begin_turn
plain_prompt-Inv interrupt now text s h v = ground (
  arith,
  collect_prompt-Inv now text s v,
  length-set_live_intent cancelled s.turn_starts,
  length-start now (set_live_intent cancelled s.turn_starts),
)
plain_prompt-Inv passthrough now text s h v = absurd (h refl)
plain_prompt-Inv collect now text s h v = collect_prompt-Inv now text s v

on_prompt-Inv :
    (b : Backend) (now : ℕ) (text : Text) (run_id client_id : Option String) (s : Gateway)
    → Inv s
    → Inv (on_prompt b now text run_id client_id s).0
unfolding on_prompt echo_prompt
on_prompt-Inv b now text (some rid) client_id s v =
    scheduled_prompt-Inv now text (note_first_prompt b (some rid) s).0
      (note_first_prompt-Inv b (some rid) s v)
on_prompt-Inv b now text none client_id s v =
    let s1 = (note_first_prompt b none s).0 in
    let w = note_first_prompt-Inv b none s v in
    plain_prompt-Inv s1.queue_mode now text s1 w.no_passthrough w

on_input-Inv :
    (b : Backend) (now : ℕ) (inp : SessionInput) (s : Gateway)
    → Inv s
    → Inv (on_input b now inp s).0
unfolding on_input stamp_intent clear_queue clear interrupt_live effective
on_input-Inv b now (prompt text run_id client_id) s v =
    on_prompt-Inv b now text run_id client_id s v
on_input-Inv b now (set_queue_mode mode) s v = ground arith
on_input-Inv b now interrupt_turn s v =
    ground (arith, length-set_live_intent cancelled s.turn_starts)
on_input-Inv b now cancel s v = ground (arith, length-set_live_intent cancelled s.turn_starts)
on_input-Inv b now (timeout_kill r) s v =
    ground (arith, length-set_live_intent timeout s.turn_starts)
on_input-Inv b now (pty_data d) s v = v
on_input-Inv b now (pty_resize c r) s v = v
on_input-Inv b now (approval_reply i a) s v = v

on_timer-Inv : (set : Settings) (now : ℕ) (s : Gateway) → Inv s → Inv (on_timer set now s).0
unfolding on_timer flush disarm drain_merged begin_turn flush_due
on_timer-Inv set now s v = ground (arith, length-start now s.turn_starts)

pub round-Inv :
    (set : Settings) (x : Moment × Message) (s : Gateway) → Inv s → Inv (round set x s).0
unfolding round
round-Inv set (m, event evt) s v = on_event-Inv set m evt s v
round-Inv set (m, input inp) s v = on_input-Inv set.backend m.now inp s v
round-Inv set (m, timer) s v = on_timer-Inv set m.now s v

rounds-Inv :
    (set : Settings) (xs : List (Moment × Message)) (s : Gateway) → Inv s → Inv (rounds set xs s).0
unfolding rounds
rounds-Inv set [] s v = v
rounds-Inv set (x ∷ xs) s v = rounds-Inv set xs (round set x s).0 (round-Inv set x s v)

-- After any messages at all, in any order, for crew and for codex: the boundaries are counted, the
-- task is busy exactly while a started turn has not ended, a collect window is open only while idle
-- and with prompts waiting on both timers, and no idle prompt is stranded.
pub gateway-Inv : (set : Settings) (xs : List (Moment × Message)) → Inv (rounds set xs init).0
gateway-Inv set xs = rounds-Inv set xs init init-Inv
