-- ===== src/GatewayFanout/Input.antt =====
-- What `spawn_crew_fanout` and `spawn_codex_fanout` do with an input and with the collect window, and
-- the rounds of their `select!` loop.
use zeromux.Acp.{user_prompt}
use zeromux.ClaudeFanout.Loop.{Message, event, input, timer}
use zeromux.Effects.{
  Moment, Effect, emit, mark_turn, approval_resolved, resolve_approval, mark_queue_mode,
  emit_queue_mode, emit_queued, send_prompt, interrupt_process, kill_process, mark_fanout_ended,
  ◌>>◌, call, when,
}
use zeromux.GatewayFanout.Events.{on_event}
use zeromux.GatewayFanout.State.{Backend, crew_gateway, codex_server, Settings, Action, init}
use zeromux.Inputs.{
  SessionInput, pty_data, pty_resize, prompt, cancel, interrupt_turn, set_queue_mode, timeout_kill,
  approval_reply,
}
use zeromux.Prelude.{
  ℕ, ◌+◌, String, Bool, true, false, Option, none, some, List, [], ◌∷◌, ◌++◌, Text, is_some,
  is_none, is_empty, ◌||◌, if◌then◌else◌, length,
}
use zeromux.PromptQueue.{
  QueueMode, collect, interrupt, passthrough, effective, enqueue, bump_debounce, clear, disarm,
  drain_merged, flush_due,
}
use zeromux.Prompts.{truncate_prompt_for_scrollback}
use zeromux.RunMetrics.{RunOutcome, timeout, cancelled}
use zeromux.Turns.{running, start, set_live_intent}

unfoldable pub begin_turn : ℕ → Text → Action
begin_turn now text s =
    let seq = s.turn_seq + 1 in
    (
      record s { turn_seq = seq; local_running = true; turn_starts = start now s.turn_starts },
      mark_turn running seq ∷ send_prompt text ∷ [],
    )

unfoldable pub stamp_intent : RunOutcome → Action
stamp_intent o s = (record s { turn_starts = set_live_intent o s.turn_starts }, [])

unfoldable pub clear_queue : Action
clear_queue s = (record s { queue = clear s.queue }, [])

unfoldable pub interrupt_live : Action
interrupt_live = stamp_intent cancelled >> call interrupt_process

-- `take_first_prompt` of crew: its log line, once, is no part of the model.
unfoldable pub note_first_prompt : Backend → Option String → Action
note_first_prompt crew_gateway run_id s =
    (record s { first_prompt_logged = s.first_prompt_logged || is_none run_id }, [])
note_first_prompt codex_server run_id s = (s, [])

unfoldable pub echo_prompt : Text → Option String → Action
echo_prompt text client_id s =
    let next = s.turn_seq + 1 in
    (s, emit next (user_prompt (truncate_prompt_for_scrollback text) next client_id) ∷ [])

-- A prompt with a run id bypasses the queue and drops it.
unfoldable pub scheduled_prompt : ℕ → Text → Action
scheduled_prompt now text s =
    (clear_queue >> when s.local_running interrupt_live >> begin_turn now text) s

unfoldable pub enqueue_prompt : ℕ → Text → Bool → Action
enqueue_prompt now text window s =
    let q = enqueue now text s.queue in
    (
      record s { queue = if window then bump_debounce now q else q },
      emit_queued (length q.pending) ∷ [],
    )

unfoldable pub collect_prompt : ℕ → Text → Action
unfolding enqueue_prompt
collect_prompt now text s =
    if s.local_running
    then enqueue_prompt now text false s
    else if is_some s.queue.debounce
    then enqueue_prompt now text true s
    else begin_turn now text s

unfoldable pub plain_prompt : QueueMode → ℕ → Text → Action
plain_prompt interrupt now text s =
    if s.local_running
    then (interrupt_live >> clear_queue >> begin_turn now text) s
    else collect_prompt now text s
plain_prompt passthrough now text s = begin_turn now text s
plain_prompt collect now text s = collect_prompt now text s

dispatch_prompt : ℕ → Text → Option String → Action
dispatch_prompt now text (some rid) s = scheduled_prompt now text s
dispatch_prompt now text none s = plain_prompt s.queue_mode now text s

unfoldable pub on_prompt : Backend → ℕ → Text → Option String → Option String → Action
unfolding dispatch_prompt
on_prompt backend now text run_id client_id =
    note_first_prompt backend run_id
    >> echo_prompt text client_id
    >> dispatch_prompt now text run_id

-- Only crew answers approvals; an answer continues the turn and stamps nothing.
unfoldable pub approval_calls : Backend → String → String → List Effect
approval_calls crew_gateway id action = approval_resolved id ∷ resolve_approval id action ∷ []
approval_calls codex_server id action = []

unfoldable pub on_input : Backend → ℕ → SessionInput → Action
on_input backend now (prompt text run_id client_id) s =
    on_prompt backend now text run_id client_id s
on_input backend now (set_queue_mode mode) s =
    let q = effective mode in
    (record s { queue_mode = q }, mark_queue_mode q ∷ emit_queue_mode q ∷ [])
on_input backend now interrupt_turn s = (when s.local_running interrupt_live >> clear_queue) s
on_input backend now cancel s = (stamp_intent cancelled >> call kill_process) s
on_input backend now (timeout_kill _) s = (stamp_intent timeout >> call kill_process) s
on_input backend now (approval_reply id action) s = (s, approval_calls backend id action)
on_input backend now (pty_data _) s = (s, [])
on_input backend now (pty_resize _ _) s = (s, [])

-- The flush branch: both timers off, and the queued prompts go out as one merged turn.
unfoldable pub flush : Settings → ℕ → Action
flush set now s =
    let (merged, drained) = drain_merged set.hhmm (disarm s.queue) in
    if is_empty s.queue.pending
    then (record s { queue = disarm s.queue }, [])
    else begin_turn now merged (record s { queue = drained })

unfoldable pub on_timer : Settings → ℕ → Action
on_timer set now s = if flush_due now s.queue then flush set now s else (s, [])

unfoldable pub round : Settings → Moment × Message → Action
round set (m, event evt) = on_event set m evt
round set (m, input inp) = on_input set.backend m.now inp
round set (m, timer) = on_timer set m.now

unfoldable pub rounds : Settings → List (Moment × Message) → Action
rounds set [] s = (s, [])
rounds set (x ∷ xs) s = (round set x >> rounds set xs) s

unfoldable pub gateway_task : Settings → List (Moment × Message) → List Effect
gateway_task set xs = (rounds set xs init).1 ++ mark_fanout_ended ∷ []
