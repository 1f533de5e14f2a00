-- ===== src/Effects.antt =====
-- What a fan-out task of src/session_manager.rs does besides changing its own variables: its calls, in
-- their order. They go to the session manager, the process and the store; a manager that is gone drops
-- those to itself, which the task does not notice. The three agent fan-outs share these calls.
use zeromux.Acp.{AcpEvent}
use zeromux.Prelude.{ℕ, String, Bool, true, false, Option, List, [], ◌∷◌, ◌++◌, Text}
use zeromux.PromptQueue.{QueueMode}
use zeromux.RunMetrics.{RunOutcome, RunMetric}
use zeromux.Session.{ResumeToken}
use zeromux.Turns.{TurnState}

-- A round reads the clock once, and takes one fresh id if it records a metric.
pub record Moment : Type 0 where
  pub now : ℕ
  pub fresh_id : String

pub data Effect : Type 0 where
  emit : ℕ → AcpEvent → Effect
  log_result_event : AcpEvent → Effect
  append_run_event : String → AcpEvent → Effect
  mark_turn : TurnState → ℕ → Effect
  set_resume_token : ResumeToken → Effect
  approval_resolved : String → Effect
  resolve_approval : String → String → Effect
  mark_queue_mode : QueueMode → Effect
  emit_queue_mode : QueueMode → Effect
  emit_queued : ℕ → Effect
  send_prompt : Text → Effect
  interrupt_process : Effect
  kill_process : Effect
  finalize_run : String → String → Option Text → Option String → Effect
  push_turn_done : ℕ → Effect
  push_run_done : Option Text → Effect
  push_run_failed : String → Effect
  mark_vault_dirty : Effect
  settle_posture : RunOutcome → Effect
  record_run_metric : RunMetric → Effect
  title_session : Text → Text → Effect
  mark_fanout_ended : Effect

-- A step of a task with the variables `S`: what they become, and the calls that it makes.
abbrev pub Act : Type 0 → Type 0
Act S = S → S × List Effect

infixr 5 ◌>>◌
abbrev pub ◌>>◌ : {S : Type 0} → Act S → Act S → Act S
◌>>◌ m k s = ((k (m s).0).0, (m s).1 ++ (k (m s).0).1)

abbrev pub skip : {S : Type 0} → Act S
skip s = (s, [])

abbrev pub call : {S : Type 0} → Effect → Act S
call e s = (s, e ∷ [])

abbrev pub when : {S : Type 0} → Bool → Act S → Act S
when true m = m
when false m = skip

abbrev pub in_order : {S : Type 0} → List (Act S) → Act S
in_order [] s = (s, [])
in_order (a ∷ later) s = (a >> in_order later) s
