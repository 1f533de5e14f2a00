-- ===== src/Turns.antt =====
-- The bookkeeping of turns in src/session_manager.rs: `TurnStarts`, the FIFO of the turns that have
-- started and not yet ended, and the classification of an event of the Claude process.
pub mod Fifo
use zeromux.Acp.{AcpEvent, content_block, peer_message, is_boundary}
use zeromux.Prelude.{
  ℕ, Bool, true, false, not, ◌&&◌, Option, none, some, List, [], ◌∷◌, ◌++◌, if◌then◌else◌,
}
use zeromux.RunMetrics.{RunOutcome}

pub data TurnState : Type 0 where
  idle running : TurnState

pub record TurnEntry : Type 0 where
  pub ms : ℕ
  pub intent : Option RunOutcome
  pub external : Bool
  pub echoed : Bool

-- The front of the `VecDeque` is the head of the list.
abbrev pub TurnStarts : Type 0
TurnStarts = List TurnEntry

pub start : ℕ → TurnStarts → TurnStarts
start ms ts = ts ++ record { ms = ms; intent = none; external = false; echoed = false } ∷ []

pub start_external : ℕ → TurnStarts → TurnStarts
start_external ms ts = ts ++ record { ms = ms; intent = none; external = true; echoed = true } ∷ []

pub front_is_external : TurnStarts → Bool
front_is_external [] = false
front_is_external (e ∷ es) = e.external

pub front_is_echoed : TurnStarts → Bool
front_is_echoed [] = false
front_is_echoed (e ∷ es) = e.echoed

-- The oldest entry that still waits for the echo of its prompt.
pub mark_echoed : TurnStarts → TurnStarts
mark_echoed [] = []
mark_echoed (e ∷ es) =
    let rest = mark_echoed es in if e.echoed then e ∷ rest else record e { echoed = true } ∷ es

pub set_live_intent : RunOutcome → TurnStarts → TurnStarts
set_live_intent o [] = []
set_live_intent o (e ∷ []) = record e { intent = some o } ∷ []
set_live_intent o (e ∷ f ∷ es) = e ∷ set_live_intent o (f ∷ es)

pub front : TurnStarts → Option ℕ
front [] = none
front (e ∷ es) = some e.ms

unfoldable pub front_intent : TurnStarts → Option RunOutcome
front_intent [] = none
front_intent (e ∷ es) = e.intent

-- `settle` pops the front: what it returns, and what it leaves.
pub settle : TurnStarts → Option (ℕ × Option RunOutcome) × TurnStarts
settle [] = (none, [])
settle (e ∷ es) = (some (e.ms, e.intent), es)

pub data ClaudeStep : Type 0 where
  start_external_turn skip_boundary normal : ClaudeStep

opens_turn : AcpEvent → Bool
opens_turn (peer_message from text tid) = true
opens_turn (content_block b) = true
opens_turn _ = false

unfoldable pub classify_claude_event : Bool → AcpEvent → Bool → Bool → ClaudeStep
unfolding opens_turn is_boundary
classify_claude_event local_running evt has_pending_origin front_settles_on_origin =
    if not local_running && opens_turn evt
    then start_external_turn
    else if is_boundary evt && has_pending_origin && not front_settles_on_origin
    then skip_boundary
    else normal
