-- ===== src/GatewayFanout/State.antt =====
-- The local variables of `spawn_crew_fanout` and `spawn_codex_fanout`.
use zeromux.Acp.{AcpEvent, system, turn_result}
use zeromux.Effects.{Act}
use zeromux.Prelude.{ℕ, String, str_eq, Bool, false, Option, none, some, [], Text, if◌then◌else◌}
use zeromux.PromptQueue.{QueueMode, collect, PromptQueue}
use zeromux.PromptQueue
use zeromux.Session.{ResumeToken, codex, crew}
use zeromux.Turns.{TurnStarts}

pub data Backend : Type 0 where
  crew_gateway codex_server : Backend

-- What the task is spawned with. `hhmm` is the clock face that chrono prints for an instant.
pub record Settings : Type 0 where
  pub backend : Backend
  pub sid : String
  pub agent_label : String
  pub work_dir : String
  pub hhmm : ℕ → Option Text

pub record Gateway : Type 0 where
  pub token_saved : Bool
  pub turn_seq : ℕ
  pub local_running : Bool
  pub boundary_count : ℕ
  pub queue : PromptQueue
  pub queue_mode : QueueMode
  pub turn_starts : TurnStarts
  pub first_prompt_logged : Bool

abbrev pub Action : Type 0
Action = Act Gateway

unfoldable pub init : Gateway
unfolding PromptQueue.new
init = record {
  token_saved = false;
  turn_seq = 0;
  local_running = false;
  boundary_count = 0;
  queue = PromptQueue.new;
  queue_mode = collect;
  turn_starts = [];
  first_prompt_logged = false;
}

non_empty : String → Option String
non_empty s = if str_eq s "" then none else some s

-- The gateway's slot key: on the event that opens the connection, and on every `Result`.
crew_slot_key : AcpEvent → Option String
unfolding non_empty
crew_slot_key (system _ (some s) _) = non_empty s
crew_slot_key (turn_result r) = non_empty r.session_id
crew_slot_key _ = none

codex_thread_id : AcpEvent → Option String
unfolding non_empty
codex_thread_id (turn_result r) = non_empty r.session_id
codex_thread_id _ = none

-- The token that an event carries for a resume.
pub resume_token_of : Backend → AcpEvent → Option ResumeToken
unfolding crew_slot_key codex_thread_id
resume_token_of crew_gateway evt = elim (crew_slot_key evt) [
  | none ↦ none
  | some slot ↦ some (crew slot)
]
resume_token_of codex_server evt = elim (codex_thread_id evt) [
  | none ↦ none
  | some tid ↦ some (codex tid)
]
