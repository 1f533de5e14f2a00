-- ===== src/Session/Spawn.antt =====
-- src/session_manager.rs `ensure_running`: who spawns a session's process, with what, and how it is
-- installed. Starting a process is a parameter, `launch`: it gives a process or an error.
pub mod Protocol
pub mod Fallback
use zeromux.Prelude.{
  ℕ, zero, suc, String, str_eq, Bool, true, false, not, ◌&&◌, Option, none, some, List, [], ◌∷◌,
  ◌⊎◌, inl, inr, is_some, is_none, if◌then◌else◌,
}
use zeromux.Session.{
  Session, SessionType, tmux_session, claude_session, codex_session, crew_session, ResumeToken,
  claude, codex, tmux, crew, CrewMeta, RunningProcess, running_meta,
}
use zeromux.Session.Turn.{token_eq}

pub record SpawnPlan : Type 0 where
  pub stype : SessionType
  pub resume_token : Option ResumeToken
  pub work_dir : String
  pub owner_id : String
  pub cols : ℕ
  pub rows : ℕ
  pub source_task_id : Option String
  pub crew : Option CrewMeta

pub data SpawnDecision : Type 0 where
  already_running wait : SpawnDecision
  spawn : SpawnPlan → SpawnDecision

-- Phase 1, under the lock.
unfoldable pub decide_spawn : Session → SpawnDecision × Session
decide_spawn s =
    if is_some s.running then (already_running, s) else if s.spawning then (wait, s) else (
      spawn record {
        stype = s.session_type;
        resume_token = s.resume_token;
        work_dir = s.work_dir;
        owner_id = s.owner_id;
        cols = s.cols;
        rows = s.rows;
        source_task_id = s.source_task_id;
        crew = s.crew_meta;
      },
      record s { spawning = true },
    )

-- `SpawningGuard::drop`.
unfoldable pub drop_guard : Bool → Session → Session
drop_guard armed s = if armed then record s { spawning = false } else s

pub data SlotInit : Type 0 where
  slot_resume : String → Bool → SlotInit
  slot_new : String → String → SlotInit

owns_slot : CrewMeta → Bool
owns_slot c = not (str_eq c.origin "external")

slot_owned : Option CrewMeta → Bool
slot_owned none = true
slot_owned (some c) = owns_slot c

new_slot : Option CrewMeta → SlotInit
new_slot none = slot_new "" ""
new_slot (some c) = slot_new c.mode c.agent

unfoldable pub crew_slot_init : Option ResumeToken → Option CrewMeta → SlotInit
unfolding owns_slot slot_owned new_slot
crew_slot_init (some (crew k)) c = slot_resume k (slot_owned c)
crew_slot_init (some (claude k)) c = new_slot c
crew_slot_init (some (codex k)) c = new_slot c
crew_slot_init (some (tmux k)) c = new_slot c
crew_slot_init none c = new_slot c

-- What a backend is started with.
pub data Launch : Type 0 where
  launch_claude launch_codex launch_tmux : Option String → Launch
  launch_crew : SlotInit → Launch

claude_token : Option ResumeToken → Option String
claude_token (some (claude k)) = some k
claude_token _ = none

codex_token : Option ResumeToken → Option String
codex_token (some (codex k)) = some k
codex_token _ = none

tmux_token : Option ResumeToken → Option String
tmux_token (some (tmux k)) = some k
tmux_token _ = none

unfoldable pub launch_of : SessionType → Option ResumeToken → Option CrewMeta → Launch
unfolding claude_token codex_token tmux_token
launch_of claude_session token c = launch_claude (claude_token token)
launch_of codex_session token c = launch_codex (codex_token token)
launch_of crew_session token c = launch_crew (crew_slot_init token c)
launch_of tmux_session token c = launch_tmux (tmux_token token)

unfoldable pub attempted_resume : SessionType → Option ResumeToken → Bool
attempted_resume claude_session (some (claude k)) = true
attempted_resume codex_session (some (codex k)) = true
attempted_resume tmux_session (some (tmux k)) = true
attempted_resume crew_session (some (crew k)) = true
attempted_resume _ _ = false

-- A failed tmux session is not replaced by a bare shell.
retry_launch : SessionType → Option CrewMeta → Option Launch
retry_launch tmux_session c = none
retry_launch claude_session c = some (launch_of claude_session none c)
retry_launch codex_session c = some (launch_of codex_session none c)
retry_launch crew_session c = some (launch_of crew_session none c)

abbrev pub Spawned : Type 0
Spawned = RunningProcess ⊎ String

retry : (Launch → Spawned) → Option Launch → String → Spawned × Bool
retry launch none e = (inr e, false)
retry launch (some l) e = elim (launch l) [ inl rp ↦ (inl rp, true) | inr e2 ↦ (inr e2, false) ]

-- Phase 2: the process or the error, and whether a fresh one stands in for a failed resume.
unfoldable pub start_process : (Launch → Spawned) → SpawnPlan → Spawned × Bool
unfolding retry retry_launch
start_process launch plan = elim (launch (launch_of plan.stype plan.resume_token plan.crew)) [
  | inl rp ↦ (inl rp, false)
  | inr e ↦
      if attempted_resume plan.stype plan.resume_token
      then retry launch (retry_launch plan.stype plan.crew) e
      else (inr e, false)
]

unfoldable pub option_token_eq : Option ResumeToken → Option ResumeToken → Bool
option_token_eq none none = true
option_token_eq (some a) (some b) = token_eq a b
option_token_eq _ _ = false

adopt_origin : Option CrewMeta → Option CrewMeta
adopt_origin none = none
adopt_origin (some c) = some (record c { origin = "zeromux" })

-- The session, and whether the stored token is cleared.
unfoldable pub adopt_fresh_slot : Option ResumeToken → Session → Session × Bool
unfolding option_token_eq adopt_origin token_eq
adopt_fresh_slot stale s =
    let token = if option_token_eq s.resume_token stale then none else s.resume_token in
    (record s { resume_token = token; crew_meta = adopt_origin s.crew_meta }, is_none token)

adopt_if : Bool → Option ResumeToken → Session → Session
adopt_if true stale s = (adopt_fresh_slot stale s).0
adopt_if false stale s = s

-- Phase 3, under the lock again.
unfoldable pub install : Spawned × Bool → Option ResumeToken → Session → Session
unfolding adopt_if
install (inl rp, fell_back) stale s =
    let kept = adopt_if fell_back stale s in
    record kept { spawning = false; running = some rp; status = running_meta }
install (inr e, fell_back) stale s = record s { spawning = false }

pub data Waited : Type 0 where
  ready again aborted removed : Waited

-- One look of a caller that waits for another's spawn.
unfoldable pub poll : Option Session → Waited
poll none = removed
poll (some s) = if is_some s.running then ready else if s.spawning then again else aborted
