-- ===== src/ClaudeFanout/Runs.antt =====
-- Scheduled runs in `spawn_acp_fanout`: which run ids the task finalizes, and how often.
pub mod Events
pub mod Rounds
use mathlib.Core.List.{append-nil, append_assoc}
use zeromux.Acp.{AcpEvent, turn_result, error, exit, turn_origin, stdin_echo, is_boundary}
use zeromux.ClaudeFanout.Boundary.{
  count_boundary, announce_turn, reconcile_vault, finalize_active, record_boundary, arm_if_idle,
  title_once, boundary_actions, settle_boundary,
}
use zeromux.ClaudeFanout.Events.{
  open_external, log_result, backfill_token, consume_origin, emit_event, tee_run_event, classify,
  event_actions, on_agent_event, on_event,
}
use zeromux.ClaudeFanout.Input.{
  begin_turn, stamp_intent, clear_queue, interrupt_live, finalize_active_run_if_scheduled,
  echo_prompt, note_substantive, scheduled_prompt, collect_prompt, interrupting_prompt,
  passthrough_prompt, plain_prompt, on_prompt, on_input,
}
use zeromux.ClaudeFanout.Invariant.{Inv, init-Inv, round-Inv}
use zeromux.ClaudeFanout.Loop.{Message, event, input, timer, flush, on_timer, round, rounds}
use zeromux.ClaudeFanout.State.{Config, Fanout, Action, init}
use zeromux.Effects.{Moment, Effect, finalize_run, ◌>>◌, in_order, when}
use zeromux.Inputs.{
  SessionInput, pty_data, pty_resize, prompt, cancel, interrupt_turn, set_queue_mode, timeout_kill,
  approval_reply,
}
use zeromux.Prelude.{
  ℕ, ◌≡◌, refl, sym, ap, ◌∙◌, Bool, true, false, Option, none, some, List, [], ◌∷◌, ◌++◌, String,
  Text, arith, is_some, Each, done, ◌▹◌,
}
use zeromux.Prompts.{cap_peer_message}
use zeromux.Turns.{ClaudeStep, start_external_turn, skip_boundary, normal}
use zeromux.PromptQueue.{
  flush_due, disarm, drain_merged, QueueMode, collect, interrupt, passthrough,
}

-- The ids that a list of calls finalizes, in their order.
abbrev pub finalized_id : Effect → List String
finalized_id (finalize_run rid state verdict kind) = rid ∷ []
finalized_id _ = []

abbrev pub finalized_ids : List Effect → List String
finalized_ids [] = []
finalized_ids (e ∷ es) = finalized_id e ++ finalized_ids es

abbrev pub id_list : Option String → List String
id_list none = []
id_list (some rid) = rid ∷ []

pub finalized_ids-append :
    (es fs : List Effect) → finalized_ids (es ++ fs) ≡ finalized_ids es ++ finalized_ids fs
finalized_ids-append [] fs = refl
finalized_ids-append (e ∷ es) fs =
    ap (λ ids. finalized_id e ++ ids) (finalized_ids-append es fs)
    ∙ sym (append_assoc (finalized_id e) (finalized_ids es) (finalized_ids fs))

-- An action finalizes the active run or leaves it active.
abbrev pub Keeps : Action → Fanout → Type 0
Keeps a s = finalized_ids (a s).1 ++ id_list (a s).0.active_run_id ≡ id_list s.active_run_id

pub >>-Keeps : (a b : Action) (s : Fanout) → Keeps a s → Keeps b (a s).0 → Keeps (a >> b) s
>>-Keeps a b s p q =
    simp (finalized_ids-append, append_assoc) (ap (λ ids. finalized_ids (a s).1 ++ ids) q ∙ p)

pub when-Keeps :
    (b : Bool) (a : Action) → ((s : Fanout) → Keeps a s) → (s : Fanout) → Keeps (when b a) s
when-Keeps true a h s = h s
when-Keeps false a h s = refl
