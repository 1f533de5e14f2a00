-- ===== src/ClaudeFanout/State.antt =====
-- The local variables of `spawn_acp_fanout`.
use zeromux.Effects.{Act}
use zeromux.Prelude.{ℕ, String, Bool, false, Option, none, some, [], Text, if◌then◌else◌}
use zeromux.PromptQueue.{QueueMode, collect, PromptQueue}
use zeromux.PromptQueue
use zeromux.Turns.{TurnStarts}

-- What the task is spawned with. `hhmm` is the clock face that chrono prints for an instant.
pub record Config : Type 0 where
  pub sid : String
  pub agent_label : String
  pub work_dir : String
  pub is_resumed : Bool
  pub hhmm : ℕ → Option Text

pub record Fanout : Type 0 where
  pub token_saved : Bool
  pub turn_seq : ℕ
  pub local_running : Bool
  pub boundary_count : ℕ
  pub active_run_id : Option String
  pub first_substantive_prompt : Option Text
  pub titled : Bool
  pub queue : PromptQueue
  pub queue_mode : QueueMode
  pub turn_starts : TurnStarts
  pub pending_origin : Bool
  pub prev_cost : Option ℕ
  pub first_cost_seen : Bool

abbrev pub Action : Type 0
Action = Act Fanout

unfoldable pub init : Config → Fanout
unfolding PromptQueue.new
init cfg = record {
  token_saved = false;
  turn_seq = 0;
  local_running = false;
  boundary_count = 0;
  active_run_id = none;
  first_substantive_prompt = none;
  titled = false;
  queue = PromptQueue.new;
  queue_mode = collect;
  turn_starts = [];
  pending_origin = false;
  prev_cost = if cfg.is_resumed then none else some 0;
  first_cost_seen = false;
}
