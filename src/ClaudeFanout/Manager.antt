-- ===== src/ClaudeFanout/Manager.antt =====
-- What the session manager does to the session for the calls of its fan-out: `emit`, `emit_queued`,
-- `emit_queue_mode` and the methods that the calls name. Calls to the process, the store, the push
-- service and the titler leave the session alone.
use zeromux.Acp.{AcpEvent, system, with_turn_id, is_ephemeral_event, bumps_activity}
use zeromux.Effects.{
  Effect, emit, log_result_event, append_run_event, mark_turn, set_resume_token, approval_resolved,
  resolve_approval, mark_queue_mode, emit_queue_mode, emit_queued, send_prompt, interrupt_process,
  kill_process, finalize_run, push_turn_done, push_run_done, push_run_failed, mark_vault_dirty,
  settle_posture, record_run_metric, title_session, mark_fanout_ended,
}
use zeromux.Posture.{posture_delta_of}
use zeromux.Prelude.{◌≡◌, refl, ℕ, Option, none, some, List, [], ◌∷◌, ◌++◌, Text, if◌then◌else◌}
use zeromux.PromptQueue.{QueueMode}
use zeromux.Session.{Session}
use zeromux.Session.Scrollback.{record_and_broadcast}
use zeromux.Session.Turn

-- The serialisers of serde_json: `none` is an error, on which `emit` returns.
pub record Serializer : Type 0 where
  pub event_json : AcpEvent → Option Text
  pub mode_json : QueueMode → Text

-- Live subscribers only: nothing is kept for a replay.
send_live : Option Text → Session → Session
send_live none s = s
send_live (some frame) s = elim s.running [
  | none ↦ s
  | some rp ↦ record s { running = some (record rp { event_tx = rp.event_tx ++ frame ∷ [] }) }
]

emit_frame : ℕ → AcpEvent → Option Text → Session → Session
unfolding send_live
emit_frame now evt none s = s
emit_frame now evt (some frame) s =
    if is_ephemeral_event evt
    then send_live (some frame) s
    else record_and_broadcast now frame (bumps_activity evt) (posture_delta_of evt) s

module _ (json : Serializer) (now : ℕ) where
  unfoldable pub serve_call : Effect → Session → Session
  unfolding emit_frame send_live
  serve_call (emit tid evt) s =
      let stamped = with_turn_id evt tid in emit_frame now stamped (json.event_json stamped) s
  serve_call (mark_turn state seq) s = Turn.apply_turn now state seq s
  serve_call (set_resume_token token) s = (Turn.set_resume_token token s).0
  serve_call (approval_resolved id) s = Turn.approval_resolved now id s
  serve_call (resolve_approval id action) s = s
  serve_call (mark_queue_mode mode) s = Turn.mark_queue_mode mode s
  serve_call (emit_queue_mode mode) s = send_live (some (json.mode_json mode)) s
  serve_call (emit_queued count) s =
      send_live (json.event_json (system "queued" none (some count))) s
  serve_call (settle_posture outcome) s = Turn.settle_posture now outcome s
  serve_call (record_run_metric m) s = Turn.record_run_metric m s
  serve_call mark_fanout_ended s = Turn.mark_fanout_ended s
  serve_call (log_result_event evt) s = s
  serve_call (append_run_event rid evt) s = s
  serve_call (send_prompt text) s = s
  serve_call interrupt_process s = s
  serve_call kill_process s = s
  serve_call (finalize_run rid state verdict kind) s = s
  serve_call (push_turn_done dur) s = s
  serve_call (push_run_done verdict) s = s
  serve_call (push_run_failed kind) s = s
  serve_call mark_vault_dirty s = s
  serve_call (title_session first text) s = s

  unfoldable pub serve_calls : List Effect → Session → Session
  serve_calls [] s = s
  serve_calls (e ∷ es) s = serve_calls es (serve_call e s)

  pub serve_calls-append :
      (es fs : List Effect) (s : Session)
      → serve_calls (es ++ fs) s ≡ serve_calls fs (serve_calls es s)
  unfolding serve_calls
  serve_calls-append [] fs s = refl
  serve_calls-append (e ∷ es) fs s = serve_calls-append es fs (serve_call e s)
