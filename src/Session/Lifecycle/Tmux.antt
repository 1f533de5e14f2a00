-- ===== src/Session/Lifecycle/Tmux.antt =====
-- What src/session_manager.rs asks of tmux for a session that is bound to one: `tmux_binding`,
-- `tracked_tmux_names`, `tmux_preflight` and `close_check`. `has` and `info` answer for tmux; `none` is
-- an error.
use zeromux.Prelude.{
  ℕ, ◌-◌, String, str_eq, Bool, true, false, Option, none, some, List, [], ◌∷◌, any, is_some,
  if◌then◌else◌,
}
use zeromux.Session.{Session, ResumeToken, claude, codex, tmux, crew, TmuxOrigin, own, external}
use zeromux.Session.Lifecycle.{is_ended, mark_ended}
use zeromux.Session.Table.{Sessions, lookup}

bound_as : Option ResumeToken → Option TmuxOrigin → Option (String × TmuxOrigin)
bound_as (some (tmux n)) (some o) = some (n, o)
bound_as (some (tmux n)) none = none
bound_as (some (claude k)) o = none
bound_as (some (codex k)) o = none
bound_as (some (crew k)) o = none
bound_as none o = none

abbrev pub binding : Session → Option (String × TmuxOrigin)
unfolding bound_as
binding s = bound_as s.resume_token s.tmux_origin

unfoldable pub tmux_binding : String → Sessions → Option (String × TmuxOrigin)
unfolding binding
tmux_binding id ss = elim (lookup id ss) [ none ↦ none | some s ↦ binding s ]

unfoldable pub tracked_tmux_names : Sessions → List String
unfolding binding
tracked_tmux_names [] = []
tracked_tmux_names (s ∷ ss) = elim (binding s) [
  | none ↦ tracked_tmux_names ss
  | some (n, o) ↦ n ∷ tracked_tmux_names ss
]

pub data Preflight : Type 0 where
  ready lost binding_ended server_down : Preflight

unfoldable pub decide_tmux_resume : TmuxOrigin → Bool → Preflight
decide_tmux_resume o true = ready
decide_tmux_resume own false = lost
decide_tmux_resume external false = binding_ended

asked_has : Option Bool → TmuxOrigin → Preflight
unfolding decide_tmux_resume
asked_has none o = server_down
asked_has (some exists) o = decide_tmux_resume o exists

ends : Preflight → Bool
ends binding_ended = true
ends ready = false
ends lost = false
ends server_down = false

-- The answer of tmux comes when the lock is free again: `later` is the map by then.
unfoldable pub tmux_preflight :
    (String → Option Bool) → String → Sessions → Sessions → Preflight × Sessions
unfolding binding asked_has ends
tmux_preflight has id ss later = elim (lookup id ss) [
  | none ↦ (ready, later)
  | some s ↦
      if is_ended s.status
      then (binding_ended, later)
      else if is_some s.running
      then (ready, later)
      else elim (binding s) [
        | none ↦ (ready, later)
        | some (n, o) ↦
            let decision = asked_has (has n) o in
            (decision, if ends decision then (mark_ended id later).2 else later)
      ]
]

pub record TmuxInfo : Type 0 where
  pub attached : ℕ
  pub current_command : String

pub record CloseCheck : Type 0 where
  pub is_external : Bool
  pub other_clients : ℕ
  pub busy_command : Option String

is_external_origin : TmuxOrigin → Bool
is_external_origin external = true
is_external_origin own = false

abbrev shells : List String
shells = "bash" ∷ "zsh" ∷ "sh" ∷ "fish" ∷ "dash" ∷ []

clients_besides : Bool → Option TmuxInfo → ℕ
clients_besides runs none = 0
clients_besides runs (some i) = i.attached - (if runs then 1 else 0)

busy : Option TmuxInfo → Option String
busy none = none
busy (some i) =
    if any (λ shell. str_eq shell i.current_command) shells then none else some i.current_command

unfoldable pub close_check : (String → Option TmuxInfo) → String → Sessions → Option CloseCheck
unfolding binding is_external_origin clients_besides busy
close_check info id ss = elim (lookup id ss) [
  | none ↦ none
  | some s ↦ if is_ended s.status then none else elim (binding s) [
    | none ↦ none
    | some (n, o) ↦ some (record {
      is_external = is_external_origin o;
      other_clients = clients_besides (is_some s.running) (info n);
      busy_command = busy (info n);
    })
  ]
]
