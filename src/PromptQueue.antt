-- ===== src/PromptQueue.antt =====
-- The collect queue of src/session_manager.rs: `PromptQueue`, its two timers and `QueueMode`. A timer
-- is the instant at which it fires.
pub mod Window
use zeromux.Prelude.{
  ℕ, ◌+◌, String, str_eq, Bool, false, Option, none, some, List, [], ◌∷◌, ◌++◌, Text, leb, is_none,
  is_empty, not, ◌&&◌, ◌||◌, if◌then◌else◌,
}
use zeromux.Prompts.{PendingPrompt, merge_pending}

pub data QueueMode : Type 0 where
  collect interrupt passthrough : QueueMode

pub from_str : String → QueueMode
from_str s =
    if str_eq s "interrupt"
    then interrupt
    else if str_eq s "passthrough"
    then passthrough
    else collect

pub to_str : QueueMode → String
to_str interrupt = "interrupt"
to_str passthrough = "collect"
to_str collect = "collect"

unfoldable pub effective : QueueMode → QueueMode
effective passthrough = collect
effective interrupt = interrupt
effective collect = collect

pub record PromptQueue : Type 0 where
  pub pending : List PendingPrompt
  pub debounce : Option ℕ
  pub hard_cap : Option ℕ

abbrev pub debounce_ms : ℕ
debounce_ms = 500

abbrev pub max_ms : ℕ
max_ms = 3000

unfoldable pub new : PromptQueue
new = record { pending = []; debounce = none; hard_cap = none }

unfoldable pub enqueue : ℕ → Text → PromptQueue → PromptQueue
enqueue now text q = record q { pending = q.pending ++ record { text = text; ts_ms = now } ∷ [] }

unfoldable pub bump_debounce : ℕ → PromptQueue → PromptQueue
bump_debounce now q = record q { debounce = some (now + debounce_ms) }

-- Both timers, when a turn ends with prompts queued and no window open.
unfoldable pub arm : ℕ → PromptQueue → PromptQueue
arm now q =
    if not (is_empty q.pending) && is_none q.debounce
    then record q { debounce = some (now + debounce_ms); hard_cap = some (now + max_ms) }
    else q

unfoldable pub disarm : PromptQueue → PromptQueue
disarm q = record q { debounce = none; hard_cap = none }

unfoldable pub clear : PromptQueue → PromptQueue
clear q = record { pending = []; debounce = none; hard_cap = none }

unfoldable pub drain_merged : (ℕ → Option Text) → PromptQueue → Text × PromptQueue
drain_merged hhmm q = (merge_pending hhmm q.pending, record q { pending = [] })

fired : Option ℕ → ℕ → Bool
fired none now = false
fired (some deadline) now = leb deadline now

-- The earlier of the two timers, guarded by `queue.debounce.is_some()`.
unfoldable pub flush_due : ℕ → PromptQueue → Bool
unfolding fired
flush_due now q = not (is_none q.debounce) && (fired q.debounce now || fired q.hard_cap now)
