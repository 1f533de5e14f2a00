-- ===== src/Session/Lifecycle/History.antt =====
-- What happens to the sessions, as a history of operations. A close that is due is carried out in two
-- parts, `look` and `strike`, and other operations may come between.
use zeromux.Prelude.{
  ℕ, ◌+◌, ◌≤◌, ◌≡◌, String, str_eq, Bool, false, ◌&&◌, Option, none, some, List, [], ◌∷◌, ◌⊎◌,
  if◌then◌else◌,
}
use zeromux.Session.{Session}
use zeromux.Session.Table.{Sessions, lookup, remove}
use zeromux.Session.Lifecycle.{
  Call, kill_tmux, delete_row, upsert_row, set_pending_row, abort_active_run, forget_push,
  remove_worktree, forget_log, pending_kill_ms, is_ended, tmux_name, mark_ended, revive, pend,
  mark_pending_kill, restore, remove_session, Doomed, look, strike,
}

-- Operations on the sessions. A session is made with no close pending.
pub data Op : Type 0 where
  create : Session → Op
  exit reopen undo drop_session carry_out : String → Op
  close due : String → ℕ → Op

-- The sessions, and the closes that were seen to be due and are not carried out yet.
pub record World : Type 0 where
  pub sessions : Sessions
  pub doomed : List Doomed

unfoldable pub plus : Option Doomed → List Doomed → List Doomed
plus none ds = ds
plus (some d) ds = d ∷ ds

unfoldable pub first : String → List Doomed → Option Doomed
first id [] = none
first id (d ∷ ds) = let rest = first id ds in if str_eq d.id id then some d else rest

unfoldable pub without : String → List Doomed → List Doomed
without id [] = []
without id (d ∷ ds) = let rest = without id ds in if str_eq d.id id then ds else d ∷ rest

unfoldable pub put : World → Bool × List Call × Sessions → List Call × World
put w (answer, calls, ss) = (calls, record w { sessions = ss })

unfoldable pub step : Op → World → List Call × World
unfolding plus first without put
step (create s) w = ([], record w { sessions = pend none s ∷ remove s.id w.sessions })
step (exit id) w = put w (mark_ended id w.sessions)
step (reopen id) w = put w (revive id w.sessions)
step (undo id) w = put w (restore id w.sessions)
step (drop_session id) w = put w (remove_session id w.sessions)
step (close id now) w = put w (mark_pending_kill id now w.sessions)
step (due id now) w = ([], record w { doomed = plus (look id now w.sessions) w.doomed })
step (carry_out id) w = elim (first id w.doomed) [
  | none ↦ ([], w)
  | some d ↦ put (record w { doomed = without id w.doomed }) (strike d w.sessions)
]

-- After a history, newest first.
unfoldable pub after : Sessions → List Op → World
after start [] = record { sessions = start; doomed = [] }
after start (op ∷ past) = (step op (after start past)).1

-- When the close of a session that still holds was asked for: the last one that got a window of undo,
-- if no undo came after it.
unfoldable pub asked : Sessions → List Op → String → Option ℕ
unfolding after
asked start [] id = none
asked start (close j now ∷ past) id =
    let before = asked start past id in
    if str_eq j id && (mark_pending_kill j now (after start past).sessions).0
    then some now
    else before
asked start (undo j ∷ past) id =
    let before = asked start past id in if str_eq j id then none else before
asked start (create s ∷ past) id = asked start past id
asked start (exit j ∷ past) id = asked start past id
asked start (reopen j ∷ past) id = asked start past id
asked start (drop_session j ∷ past) id = asked start past id
asked start (carry_out j ∷ past) id = asked start past id
asked start (due j now ∷ past) id = asked start past id

abbrev pub pending_of : String → Sessions → Option ℕ
pending_of id ss = elim (lookup id ss) [ none ↦ none | some s ↦ s.pending_kill_until ]

-- A window of undo that is open ends five seconds after the close was asked for.
abbrev pub Window : Option ℕ → Option ℕ → Type 0
Window none a = Unit {0}
Window (some until) a = (t : ℕ) × (a ≡ some t) × (t + pending_kill_ms ≡ until)

abbrev pub Windows : Sessions → List Op → Type 0
Windows start past =
    (id : String) → Window (pending_of id (after start past).sessions) (asked start past id)

-- What the look at `now` saw, after the history: a close asked for at least five seconds ago and not
-- undone since, and the tmux session that the session is bound to.
pub record SawDue (start : Sessions) (past : List Op) (now : ℕ) (d : Doomed) : Type 0 where
  pub asked_at : ℕ
  pub was_asked : asked start past d.id ≡ some asked_at
  pub waited : asked_at + pending_kill_ms ≤ now
  pub session : Session
  pub was_there : lookup d.id (after start past).sessions ≡ some session
  pub bound : tmux_name session.resume_token ≡ some d.name
  pub ended_then : d.was_ended ≡ is_ended session.status

-- Some look in the history saw it.
abbrev pub Decided : Sessions → List Op → Doomed → Type 0
Decided start [] d = ⊥
Decided start (due id now ∷ past) d = SawDue start past now d ⊎ Decided start past d
Decided start (create s ∷ past) d = Decided start past d
Decided start (exit j ∷ past) d = Decided start past d
Decided start (reopen j ∷ past) d = Decided start past d
Decided start (undo j ∷ past) d = Decided start past d
Decided start (drop_session j ∷ past) d = Decided start past d
Decided start (carry_out j ∷ past) d = Decided start past d
Decided start (close j now ∷ past) d = Decided start past d

-- The tmux sessions that a list of calls kills.
abbrev pub killed : List Call → List String
killed [] = []
killed (kill_tmux n ∷ cs) = n ∷ killed cs
killed (delete_row j ∷ cs) = killed cs
killed (upsert_row s ∷ cs) = killed cs
killed (set_pending_row j u ∷ cs) = killed cs
killed (abort_active_run j r ∷ cs) = killed cs
killed (forget_push j ∷ cs) = killed cs
killed (remove_worktree p ∷ cs) = killed cs
killed (forget_log j ∷ cs) = killed cs

-- Killing the session of this name is the end of a close that some look saw to be due.
abbrev pub IsWarranted : Sessions → List Op → String → Type 0
IsWarranted start past n =
    (d : Doomed) × Decided start past d × (d.name ≡ n) × (d.was_ended ≡ false)
