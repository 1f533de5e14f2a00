-- ===== src/ClaudeFanout/Input.antt =====
-- What `spawn_acp_fanout` does with an input of a client, the scheduler or a watchdog.
use zeromux.Acp.{user_prompt}
use zeromux.ClaudeFanout.State.{Action}
use zeromux.Effects.{
  emit, mark_turn, mark_queue_mode, emit_queue_mode, emit_queued, send_prompt, interrupt_process,
  kill_process, finalize_run, ◌>>◌, call, when,
}
use zeromux.Inputs.{
  SessionInput, pty_data, pty_resize, prompt, cancel, interrupt_turn, set_queue_mode, timeout_kill,
  approval_reply,
}
use zeromux.Prelude.{
  ℕ, ◌+◌, String, Bool, true, false, ◌&&◌, Option, none, some, [], ◌∷◌, Text, is_some, is_none,
  if◌then◌else◌, length,
}
use zeromux.PromptQueue.{
  QueueMode, collect, interrupt, passthrough, effective, enqueue, bump_debounce, clear,
}
use zeromux.Prompts.{truncate_prompt_for_scrollback, is_substantive_prompt}
use zeromux.RunMetrics.{RunOutcome, timeout, cancelled}
use zeromux.Turns.{running, start, set_live_intent}

-- The five lines at each site that starts a turn.
unfoldable pub begin_turn : ℕ → Text → Action
begin_turn now text s =
    let seq = s.turn_seq + 1 in
    (
      record s { turn_seq = seq; local_running = true; turn_starts = start now s.turn_starts },
      mark_turn running seq ∷ send_prompt text ∷ [],
    )

unfoldable pub stamp_intent : RunOutcome → Action
stamp_intent o s = (record s { turn_starts = set_live_intent o s.turn_starts }, [])

unfoldable pub clear_queue : Action
clear_queue s = (record s { queue = clear s.queue }, [])

-- A live turn is stamped as cancelled before its process is interrupted.
unfoldable pub interrupt_live : Action
interrupt_live = stamp_intent cancelled >> call interrupt_process

unfoldable pub finalize_active_run_if_scheduled : String → Action
finalize_active_run_if_scheduled kind s = elim s.active_run_id [
  | none ↦ (s, [])
  | some rid ↦ (record s { active_run_id = none }, finalize_run rid "failed" none (some kind) ∷ [])
]

unfoldable pub echo_prompt : Text → Option String → Action
echo_prompt text client_id s =
    let next = s.turn_seq + 1 in
    (s, emit next (user_prompt (truncate_prompt_for_scrollback text) next client_id) ∷ [])

unfoldable pub note_substantive : Text → Action
note_substantive text s = (
  record s {
    first_substantive_prompt =
        if is_none s.first_substantive_prompt && is_substantive_prompt text
        then some text
        else s.first_substantive_prompt;
  },
  [],
)

abbrev pub set_active : Option String → Action
set_active rid s = (record s { active_run_id = rid }, [])

-- A scheduled prompt bypasses the queue, drops it and gets a turn of its own.
unfoldable pub scheduled_prompt : ℕ → String → Text → Action
scheduled_prompt now rid text s =
    (clear_queue
        >> set_active (some rid)
        >> when s.local_running interrupt_live
        >> begin_turn now text)
      s

enqueue_prompt : ℕ → Text → Bool → Action
enqueue_prompt now text window s =
    let q = enqueue now text s.queue in
    (
      record s { queue = if window then bump_debounce now q else q },
      emit_queued (length q.pending) ∷ [],
    )

unfoldable pub collect_prompt : ℕ → Text → Action
unfolding enqueue_prompt
collect_prompt now text s =
    if s.local_running
    then enqueue_prompt now text false s
    else if is_some s.queue.debounce
    then enqueue_prompt now text true s
    else (note_substantive text >> set_active none >> begin_turn now text) s

unfoldable pub interrupting_prompt : ℕ → Text → Action
interrupting_prompt now text =
    interrupt_live
    >> clear_queue
    >> finalize_active_run_if_scheduled "interrupted"
    >> begin_turn now text

unfoldable pub passthrough_prompt : ℕ → Text → Action
passthrough_prompt now text = finalize_active_run_if_scheduled "interrupted" >> begin_turn now text

-- A prompt with no run id goes by the queue mode; `interrupt` counts only while a turn runs.
unfoldable pub plain_prompt : QueueMode → ℕ → Text → Action
plain_prompt interrupt now text s =
    if s.local_running then interrupting_prompt now text s else collect_prompt now text s
plain_prompt passthrough now text s = passthrough_prompt now text s
plain_prompt collect now text s = collect_prompt now text s

dispatch_prompt : ℕ → Text → Option String → Action
dispatch_prompt now text (some rid) s = scheduled_prompt now rid text s
dispatch_prompt now text none s = plain_prompt s.queue_mode now text s

unfoldable pub on_prompt : ℕ → Text → Option String → Option String → Action
unfolding dispatch_prompt
on_prompt now text run_id client_id = echo_prompt text client_id >> dispatch_prompt now text run_id

unfoldable pub on_input : ℕ → SessionInput → Action
on_input now (prompt text run_id client_id) s = on_prompt now text run_id client_id s
on_input now (set_queue_mode mode) s =
    let q = effective mode in
    (record s { queue_mode = q }, mark_queue_mode q ∷ emit_queue_mode q ∷ [])
on_input now interrupt_turn s = (when s.local_running interrupt_live >> clear_queue) s
on_input now cancel s = (stamp_intent cancelled >> call kill_process) s
on_input now (timeout_kill _) s = (stamp_intent timeout >> call kill_process) s
on_input now (pty_data _) s = (s, [])
on_input now (pty_resize _ _) s = (s, [])
on_input now (approval_reply _ _) s = (s, [])
