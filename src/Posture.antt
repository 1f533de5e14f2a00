-- ===== src/Posture.antt =====
-- The posture of a session in src/session_manager.rs: what the overview shows of it at a glance.
use zeromux.Acp.{AcpEvent, content_block, turn_result, approval}
use zeromux.Prelude.{
  ℕ, String, str_eq, Bool, false, not, ◌&&◌, ◌||◌, Option, none, some, List, [], ◌∷◌, ◌++◌, Text,
  codes, ◌==◌, if◌then◌else◌, is_empty, take, any, retain, unwrap_or,
}
use zeromux.Prompts.{trim}
use zeromux.RunMetrics.{RunOutcome, errored, timeout}

pub record Posture : Type 0 where
  pub last_outcome : Option RunOutcome
  pub last_outcome_ms : Option ℕ
  pub last_snippet : Option Text
  pub current_step : Option Text
  pub approval_ids : List String
  pub awaiting_input : Bool
  pub turn_snippet : Option Text

unfoldable pub default : Posture
default = record {
  last_outcome = none;
  last_outcome_ms = none;
  last_snippet = none;
  current_step = none;
  approval_ids = [];
  awaiting_input = false;
  turn_snippet = none;
}

pub data PostureDelta : Type 0 where
  step : Text → PostureDelta
  snippet : Text → PostureDelta
  approval_added : String → PostureDelta

unfoldable pub cap_chars : Text → ℕ → Text
cap_chars s n = take n s

-- `str::lines`, but for the line ends that `trim` removes, in reverse order.
lines_rev : List Text → Text → Text → List Text
lines_rev acc line [] = line ∷ acc
lines_rev acc line (c ∷ cs) =
    lines_rev (if c == 0x0a then line ∷ acc else acc) (if c == 0x0a then [] else line ++ c ∷ []) cs

last_filled : List Text → Option Text
last_filled [] = none
last_filled (l ∷ ls) =
    let rest = last_filled ls in if is_empty (trim l) then rest else some (trim l)

drop_while : (ℕ → Bool) → Text → Text
drop_while p [] = []
drop_while p (c ∷ cs) = let rest = drop_while p cs in if p c then rest else c ∷ cs

drop_while_end : (ℕ → Bool) → Text → Text
drop_while_end p [] = []
drop_while_end p (c ∷ cs) =
    let rest = drop_while_end p cs in if is_empty rest && p c then [] else c ∷ rest

is_marker : ℕ → Bool
is_marker c = c == b'#' || c == b'-' || c == b'*' || c == b'>' || c == 0x20

is_emphasis : ℕ → Bool
is_emphasis c = c == b'*' || c == b'`'

is_underscore : ℕ → Bool
is_underscore c = c == b'_'

clean_line : Text → Text
unfolding drop_while drop_while_end is_marker is_emphasis is_underscore
clean_line line =
    let kept = trim (retain (λ c. not (is_emphasis c)) (drop_while is_marker line)) in
    trim (drop_while_end is_underscore (drop_while is_underscore kept))

-- The last line of an agent's final text that is not blank, with light markdown stripped.
pub snippet_of : Text → Option Text
unfolding lines_rev last_filled clean_line
snippet_of text = elim (last_filled (lines_rev [] [] text)) [
  | none ↦ none
  | some line ↦
      let cleaned = clean_line line in
      if is_empty cleaned then none else some (cap_chars cleaned 120)
]

step_of : Text → Option Text → Text
step_of name none = name
step_of name (some s) = if is_empty s then name else name ++ codes " · " ++ s

unfoldable pub posture_delta_of : AcpEvent → Option PostureDelta
unfolding step_of
posture_delta_of (content_block b) =
    if str_eq b.block_type "tool_use"
    then some (step (cap_chars (step_of (unwrap_or b.name (codes "tool")) b.summary) 80))
    else none
posture_delta_of (turn_result r) = elim (snippet_of r.text) [
  | none ↦ none
  | some s ↦ some (snippet s)
]
posture_delta_of (approval id _ _ _ _) = some (approval_added id)
posture_delta_of _ = none

unfoldable pub apply_posture_delta : Posture → PostureDelta → Posture
apply_posture_delta p (step s) = record p { current_step = some s }
apply_posture_delta p (snippet s) = record p { turn_snippet = some s; last_snippet = some s }
apply_posture_delta p (approval_added id) = record p {
  approval_ids =
      if any (λ x. str_eq x id) p.approval_ids then p.approval_ids else p.approval_ids ++ id ∷ [];
}

-- What `settle_posture` does to the posture of a session at `now`.
unfoldable pub settle : RunOutcome → ℕ → Posture → Posture
settle o now p = record p {
  last_outcome = some o;
  last_outcome_ms = some now;
  current_step = none;
  approval_ids = [];
  last_snippet = elim o [ errored ↦ none | timeout ↦ none | _ ↦ p.last_snippet ];
}
