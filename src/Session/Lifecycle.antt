-- ===== src/Session/Lifecycle.antt =====
-- How a session ends and is closed: src/session_manager.rs `mark_ended`, `revive`, `mark_pending_kill`,
-- `restore`, `finalize_pending_kill`, `reconcile_pending_kills`, `remove_session`, `close_check` and
-- their kin, and the handlers of src/web.rs that call them. tmux is asked by parameters; what is told to
-- it and to the stores is listed as calls.
pub mod History
pub mod Windows
pub mod Looks
pub mod Undo
pub mod Tmux
pub mod Requests
use zeromux.Prelude.{
  ℕ, ◌+◌, ◌-◌, String, str_eq, Bool, true, false, not, ◌&&◌, ◌||◌, Option, none, some, List, [],
  ◌∷◌, ◌++◌, retain, any, is_some, is_none, leb, if◌then◌else◌,
}
use zeromux.Session.{
  Session, SessionMeta, running_meta, done, blocked, idle_meta, ended, ResumeToken, claude, codex,
  tmux, crew, TmuxOrigin, own, external,
}
use zeromux.Session.Table.{Sessions, lookup, modify, remove}

pub data Call : Type 0 where
  kill_tmux : String → Call
  delete_row : String → Call
  upsert_row : Session → Call
  set_pending_row : String → Option ℕ → Call
  abort_active_run : String → String → Call
  forget_push : String → Call
  remove_worktree : String → Call
  forget_log : String → Call

-- What an operation answers, the calls it makes, and the sessions after it.
abbrev pub Answer {ℓ} : Type ℓ → Type ℓ
Answer A = A × List Call × Sessions

abbrev pub pending_kill_ms : ℕ
pending_kill_ms = 5000

abbrev pub is_ended : SessionMeta → Bool
is_ended ended = true
is_ended running_meta = false
is_ended done = false
is_ended blocked = false
is_ended idle_meta = false

-- The tmux session that a session is bound to.
abbrev pub tmux_name : Option ResumeToken → Option String
tmux_name (some (tmux n)) = some n
tmux_name (some (claude k)) = none
tmux_name (some (codex k)) = none
tmux_name (some (crew k)) = none
tmux_name none = none

unfoldable pub mark_ended : String → Sessions → Answer Bool
mark_ended id ss = elim (lookup id ss) [
  | none ↦ (false, [], ss)
  | some s ↦
      if is_none s.running && not s.spawning && not (is_ended s.status)
      then (true, [], modify id (λ r. record r { status = ended }) ss)
      else (false, [], ss)
]

abbrev pub revived : Session → Session
revived s = record s { status = idle_meta; tmux_origin = some own }

unfoldable pub revive : String → Sessions → Answer Bool
revive id ss = elim (lookup id ss) [
  | none ↦ (false, [], ss)
  | some s ↦
      if is_ended s.status
      then (true, upsert_row (revived s) ∷ [], modify id revived ss)
      else (false, [], ss)
]

abbrev pub pend : Option ℕ → Session → Session
pend until s = record s { pending_kill_until = until }

unfoldable pub mark_pending_kill : String → ℕ → Sessions → Answer Bool
mark_pending_kill id now ss = elim (lookup id ss) [
  | none ↦ (false, [], ss)
  | some s ↦
      let until = some (now + pending_kill_ms) in
      if is_none s.tmux_origin
      then (false, [], ss)
      else (true, set_pending_row id until ∷ [], modify id (pend until) ss)
]

unfoldable pub restore : String → Sessions → Answer Bool
restore id ss = elim (lookup id ss) [
  | none ↦ (false, [], ss)
  | some s ↦
      if is_none s.pending_kill_until
      then (false, [], ss)
      else (true, set_pending_row id none ∷ [], modify id (pend none) ss)
]

abort_calls : Session → List Call
abort_calls s =
    if is_some s.source_task_id then abort_active_run s.id "session_removed" ∷ [] else []

worktree_calls : Option String → List Call
worktree_calls none = []
worktree_calls (some path) = remove_worktree path ∷ []

pub removal_calls : String → Session → List Call
unfolding abort_calls worktree_calls
removal_calls id s =
    delete_row id ∷ abort_calls s ++ (forget_push id ∷ worktree_calls s.worktree_path)

unfoldable pub remove_session : String → Sessions → Answer Bool
unfolding removal_calls
remove_session id ss = elim (lookup id ss) [
  | none ↦ (false, [], ss)
  | some s ↦ (true, removal_calls id s, remove id ss)
]

pub is_due : ℕ → Option ℕ → Bool
is_due now none = false
is_due now (some until) = leb until now

-- A close that is due, as the first lock of `finalize_pending_kill` sees it.
pub record Doomed : Type 0 where
  pub id : String
  pub name : String
  pub was_ended : Bool

unfoldable pub look : String → ℕ → Sessions → Option Doomed
unfolding is_due
look id now ss = elim (lookup id ss) [
  | none ↦ none
  | some s ↦ elim (tmux_name s.resume_token) [
    | none ↦ none
    | some n ↦
        if is_due now s.pending_kill_until
        then some (record { id = id; name = n; was_ended = is_ended s.status })
        else none
  ]
]

-- The rest of it: the session goes first, then the tmux session that it was bound to.
unfoldable pub strike : Doomed → Sessions → Answer Bool
strike d ss =
    let (removed, calls, left) = remove_session d.id ss in
    (removed, calls ++ (if d.was_ended then [] else kill_tmux d.name ∷ []), left)

unfoldable pub finalize_pending_kill : String → ℕ → Sessions → Answer Bool
finalize_pending_kill id now ss = elim (look id now ss) [
  | none ↦ (false, [], ss)
  | some d ↦ strike d ss
]
