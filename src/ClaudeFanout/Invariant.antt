-- ===== src/ClaudeFanout/Invariant.antt =====
-- What holds of the variables of `spawn_acp_fanout` between two rounds of its loop.
use zeromux.Acp.{AcpEvent, turn_result, error, exit, turn_origin, stdin_echo, is_boundary}
use zeromux.ClaudeFanout.Boundary.{
  count_boundary, announce_turn, reconcile_vault, finalize_active, record_boundary, arm_if_idle,
  title_once, settle_boundary,
}
use zeromux.ClaudeFanout.Events.{
  open_external, log_result, backfill_token, consume_origin, emit_event, tee_run_event, is_skip,
  classify, on_agent_event, on_event,
}
use zeromux.ClaudeFanout.Input.{
  begin_turn, stamp_intent, clear_queue, interrupt_live, finalize_active_run_if_scheduled,
  echo_prompt, note_substantive, scheduled_prompt, collect_prompt, interrupting_prompt,
  plain_prompt, on_prompt, on_input,
}
use zeromux.ClaudeFanout.Loop.{Message, event, input, timer, flush, on_timer, round, rounds}
use zeromux.ClaudeFanout.State.{Config, Fanout, init}
use zeromux.Effects.{Moment, when}
use zeromux.Inputs.{
  SessionInput, pty_data, pty_resize, prompt, cancel, interrupt_turn, set_queue_mode, timeout_kill,
  approval_reply,
}
use zeromux.Prelude.{
  ℕ, ◌+◌, ◌≡◌, ◌≢◌, refl, inl, inr, Bool, true, false, not, ◌&&◌, Option, none, some, List, [], ◌∷◌,
  ◌++◌, String, Text, arith, Bool-cases, ltb, is_some, is_empty, length,
}
use zeromux.PromptQueue.{
  PromptQueue, QueueMode, collect, interrupt, passthrough, effective, arm, disarm, clear, enqueue,
  bump_debounce, drain_merged, flush_due,
}
use zeromux.Prompts.{PendingPrompt, cap_peer_message}
use zeromux.RunMetrics.{timeout, cancelled}
use zeromux.Turns.{ClaudeStep, start_external_turn, skip_boundary, normal, set_live_intent}
use zeromux.Turns.Fifo.{
  length-settle, length-start, length-start_external, length-mark_echoed, length-set_live_intent,
}

-- A collect window is open only while idle, with prompts waiting, on both timers; and idle prompts
-- wait only in a window.
pub record IsWindowed (local_running : Bool) (q : PromptQueue) : Type 0 where
  pub window_idle : is_some q.debounce ≡ true → local_running ≡ false
  pub window_filled : is_some q.debounce ≡ true → is_empty q.pending ≡ false
  pub both_timers : is_some q.hard_cap ≡ is_some q.debounce
  pub none_stranded : is_empty q.pending ≡ false → local_running ≡ false → is_some q.debounce ≡ true

pub record Inv (s : Fanout) : Type 0 where
  pub counted : length s.turn_starts + s.boundary_count ≡ s.turn_seq
  pub busy : s.local_running ≡ ltb s.boundary_count s.turn_seq
  pub windowed : IsWindowed s.local_running s.queue
  pub no_passthrough : s.queue_mode ≢ passthrough
  pub run_is_live : is_some s.active_run_id ≡ true → s.local_running ≡ true

pub init-Inv : (cfg : Config) → Inv (init cfg)
unfolding init
init-Inv cfg = ground arith

settle_boundary-Inv :
    (cfg : Config) (m : Moment) (evt : AcpEvent) (s : Fanout)
    → is_boundary evt ≡ true
    → Inv s
    → Inv (settle_boundary cfg m evt s).0
unfolding settle_boundary count_boundary announce_turn reconcile_vault finalize_active
    record_boundary arm_if_idle title_once arm is_boundary
settle_boundary-Inv cfg m (turn_result r) s b v = ground (arith, length-settle s.turn_starts)
settle_boundary-Inv cfg m (error e) s b v = ground (arith, length-settle s.turn_starts)
settle_boundary-Inv cfg m (exit c) s b v = ground (arith, length-settle s.turn_starts)
settle_boundary-Inv cfg m _ s b v = cc

open_external-Inv :
    (step : ClaudeStep) (now : ℕ) (s : Fanout) → Inv s → Inv (open_external step now s).0
unfolding open_external disarm
open_external-Inv start_external_turn now s v =
    ground (arith, length-start_external now s.turn_starts)
open_external-Inv skip_boundary now s v = v
open_external-Inv normal now s v = v

backfill_token-Inv : (evt : AcpEvent) (s : Fanout) → Inv s → Inv (backfill_token evt s).0
unfolding backfill_token
backfill_token-Inv evt s v = ground arith

consume_origin-Inv : (evt : AcpEvent) (s : Fanout) → Inv s → Inv (consume_origin evt s).0
unfolding consume_origin
consume_origin-Inv evt s v = ground arith

tee_run_event-fanout : (evt : AcpEvent) (s : Fanout) → (tee_run_event evt s).0 ≡ s
unfolding tee_run_event
tee_run_event-fanout evt s = ground arith

when_boundary-Inv :
    (cfg : Config) (m : Moment) (evt : AcpEvent) (b : Bool) (s : Fanout)
    → Inv s
    → Inv (when (is_boundary evt && b) (settle_boundary cfg m evt) s).0
when_boundary-Inv cfg m evt b s v = elim (Bool-cases (is_boundary evt && b)) [
  | inl e ↦ rw e (settle_boundary-Inv cfg m evt s (ground arith) v)
  | inr e ↦ rw e v
]

on_agent_event-Inv :
    (cfg : Config) (m : Moment) (evt : AcpEvent) (s : Fanout)
    → Inv s
    → Inv (on_agent_event cfg m evt s).0
unfolding on_agent_event log_result emit_event
on_agent_event-Inv cfg m evt s v =
    let step = classify evt s in
    let s1 = (open_external step m.now s).0 in
    let s2 = (backfill_token evt s1).0 in
    let s3 = (consume_origin evt s2).0 in
    rw (tee_run_event-fanout evt s3) (
      when_boundary-Inv cfg m evt (not (is_skip step)) s3
        (consume_origin-Inv evt s2 (backfill_token-Inv evt s1 (open_external-Inv step m.now s v))))

-- Every event of the process keeps the invariant.
on_event-Inv :
    (cfg : Config) (m : Moment) (evt : AcpEvent) (s : Fanout) → Inv s → Inv (on_event cfg m evt s).0
unfolding on_event
on_event-Inv cfg m (turn_origin kind) s v = ground arith
on_event-Inv cfg m stdin_echo s v = ground (arith, length-mark_echoed s.turn_starts)
on_event-Inv cfg m evt s v = on_agent_event-Inv cfg m (cap_peer_message evt) s v

pub is_empty-enqueue :
    (ps : List PendingPrompt) (p : PendingPrompt) → is_empty (ps ++ p ∷ []) ≡ false
is_empty-enqueue [] p = refl
is_empty-enqueue (x ∷ ps) p = refl

begin_turn-Inv :
    (now : ℕ) (text : Text) (s : Fanout)
    → Inv s
    → is_some s.queue.debounce ≡ false
    → Inv (begin_turn now text s).0
unfolding begin_turn
begin_turn-Inv now text s v e = ground (arith, length-start now s.turn_starts)

interrupt_live-Inv : (s : Fanout) → Inv s → Inv (interrupt_live s).0
unfolding interrupt_live stamp_intent
interrupt_live-Inv s v = ground (arith, length-set_live_intent cancelled s.turn_starts)

scheduled_prompt-Inv :
    (now : ℕ) (rid : String) (text : Text) (s : Fanout)
    → Inv s
    → Inv (scheduled_prompt now rid text s).0
unfolding scheduled_prompt clear_queue clear interrupt_live stamp_intent begin_turn
scheduled_prompt-Inv now rid text s v = ground (
  arith,
  length-set_live_intent cancelled s.turn_starts,
  length-start now s.turn_starts,
  length-start now (set_live_intent cancelled s.turn_starts),
)

collect_prompt-Inv :
    (now : ℕ) (text : Text) (s : Fanout) → Inv s → Inv (collect_prompt now text s).0
unfolding collect_prompt note_substantive begin_turn enqueue bump_debounce
collect_prompt-Inv now text s v =
    ground (arith, length-start now s.turn_starts, is_empty-enqueue s.queue.pending)

interrupting_prompt-Inv :
    (now : ℕ) (text : Text) (s : Fanout) → Inv s → Inv (interrupting_prompt now text s).0
unfolding interrupting_prompt interrupt_live stamp_intent clear_queue clear
    finalize_active_run_if_scheduled begin_turn
interrupting_prompt-Inv now text s v = ground (
  arith,
  length-set_live_intent cancelled s.turn_starts,
  length-start now (set_live_intent cancelled s.turn_starts),
)

plain_prompt-Inv :
    (mode : QueueMode) (now : ℕ) (text : Text) (s : Fanout)
    → mode ≢ passthrough
    → Inv s
    → Inv (plain_prompt mode now text s).0
unfolding plain_prompt
plain_prompt-Inv interrupt now text s h v =
    ground (arith, interrupting_prompt-Inv now text s v, collect_prompt-Inv now text s v)
plain_prompt-Inv passthrough now text s h v = absurd (h refl)
plain_prompt-Inv collect now text s h v = collect_prompt-Inv now text s v

on_prompt-Inv :
    (now : ℕ) (text : Text) (run_id client_id : Option String) (s : Fanout)
    → Inv s
    → Inv (on_prompt now text run_id client_id s).0
unfolding on_prompt echo_prompt
on_prompt-Inv now text (some rid) client_id s v = scheduled_prompt-Inv now rid text s v
on_prompt-Inv now text none client_id s v =
    plain_prompt-Inv s.queue_mode now text s v.no_passthrough v

-- Every input keeps the invariant, the ones that no fan-out expects included.
on_input-Inv : (now : ℕ) (inp : SessionInput) (s : Fanout) → Inv s → Inv (on_input now inp s).0
unfolding on_input stamp_intent clear_queue clear interrupt_live effective
on_input-Inv now (prompt text run_id client_id) s v = on_prompt-Inv now text run_id client_id s v
on_input-Inv now (set_queue_mode mode) s v = ground arith
on_input-Inv now interrupt_turn s v = ground (arith, length-set_live_intent cancelled s.turn_starts)
on_input-Inv now cancel s v = ground (arith, length-set_live_intent cancelled s.turn_starts)
on_input-Inv now (timeout_kill r) s v = ground (arith, length-set_live_intent timeout s.turn_starts)
on_input-Inv now (pty_data d) s v = v
on_input-Inv now (pty_resize c r) s v = v
on_input-Inv now (approval_reply i a) s v = v

on_timer-Inv : (cfg : Config) (now : ℕ) (s : Fanout) → Inv s → Inv (on_timer cfg now s).0
unfolding on_timer flush disarm drain_merged begin_turn flush_due
on_timer-Inv cfg now s v = ground (arith, length-start now s.turn_starts)

-- Every round of the loop keeps the invariant, whichever branch is ready.
pub round-Inv : (cfg : Config) (x : Moment × Message) (s : Fanout) → Inv s → Inv (round cfg x s).0
unfolding round
round-Inv cfg (m, event evt) s v = on_event-Inv cfg m evt s v
round-Inv cfg (m, input inp) s v = on_input-Inv m.now inp s v
round-Inv cfg (m, timer) s v = on_timer-Inv cfg m.now s v

rounds-Inv :
    (cfg : Config) (xs : List (Moment × Message)) (s : Fanout) → Inv s → Inv (rounds cfg xs s).0
unfolding rounds
rounds-Inv cfg [] s v = v
rounds-Inv cfg (x ∷ xs) s v = rounds-Inv cfg xs (round cfg x s).0 (round-Inv cfg x s v)

-- After any messages at all, in any order: the boundaries are counted, the task is busy exactly while
-- a started turn has not ended, a collect window is open only while idle and with prompts waiting,
-- no idle prompt is stranded, and a scheduled run is active only while a turn runs.
pub fanout-Inv : (cfg : Config) (xs : List (Moment × Message)) → Inv (rounds cfg xs (init cfg)).0
fanout-Inv cfg xs = rounds-Inv cfg xs (init cfg) (init-Inv cfg)
