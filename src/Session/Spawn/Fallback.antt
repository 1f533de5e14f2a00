-- ===== src/Session/Spawn/Fallback.antt =====
-- A resume that failed: when `ensure_running` falls back to a fresh process, and which token is left.
use zeromux.Prelude.{
  ◌≡◌, ◌≢◌, ◌⊎◌, refl, true, Option, none, some, inl, inr, arith, String, eq_iff, ap, Bool-cases,
  if◌then◌else◌,
}
use zeromux.Session.{Session, tmux_session, ResumeToken, claude, codex, tmux, crew, RunningProcess}
use zeromux.Session.Spawn.{
  SpawnPlan, Launch, launch_of, attempted_resume, Spawned, start_process, adopt_fresh_slot,
  option_token_eq, install,
}
use zeromux.Session.Turn.{token_eq}

Spawned-cases :
    (x : Spawned) → ((rp : RunningProcess) × (x ≡ inl rp)) ⊎ ((e : String) × (x ≡ inr e))
Spawned-cases (inl rp) = inl (rp, refl)
Spawned-cases (inr e) = inr (e, refl)

-- A start counts as a fallback only if a resume was tried and failed, the session is no terminal, and a
-- start with no token gave a process; that process is the one that is used.
pub start_process-fell_back :
    (launch : Launch → Spawned) (plan : SpawnPlan)
    → (start_process launch plan).1 ≡ true
    → (attempted_resume plan.stype plan.resume_token ≡ true)
      × (plan.stype ≢ tmux_session)
      × ((e : String) × (launch (launch_of plan.stype plan.resume_token plan.crew) ≡ inr e))
      × ((rp : RunningProcess) × (launch (launch_of plan.stype none plan.crew) ≡ inl rp)
          × ((start_process launch plan).0 ≡ inl rp))
unfolding start_process
start_process-fell_back launch plan h = (
  ground arith,
  (λ e. ground arith),
  ground arith,
  elim (Spawned-cases (launch (launch_of plan.stype none plan.crew))) [
    | inl (rp, started) ↦ (rp, started, ground (arith, started, h))
    | inr (e, failed) ↦ absurd (ground (arith, failed, h))
  ],
)

token_eq_refl : (t : ResumeToken) → token_eq t t ≡ true
unfolding token_eq
token_eq_refl (claude k) = (eq_iff k k).1 refl
token_eq_refl (codex k) = (eq_iff k k).1 refl
token_eq_refl (tmux k) = (eq_iff k k).1 refl
token_eq_refl (crew k) = (eq_iff k k).1 refl

token_eq_sound : (t u : ResumeToken) → token_eq t u ≡ true → t ≡ u
unfolding token_eq
token_eq_sound (claude a) (claude b) h = ap claude ((eq_iff a b).0 h)
token_eq_sound (codex a) (codex b) h = ap codex ((eq_iff a b).0 h)
token_eq_sound (tmux a) (tmux b) h = ap tmux ((eq_iff a b).0 h)
token_eq_sound (crew a) (crew b) h = ap crew ((eq_iff a b).0 h)
token_eq_sound _ _ h = cc

-- After a fallback the token that failed is gone.
pub install_never_stale :
    (rp : RunningProcess) (stale : ResumeToken) (s : Session)
    → (install (inl rp, true) (some stale) s).resume_token ≢ some stale
unfolding install adopt_fresh_slot
install_never_stale rp stale s h = ground (arith, token_eq_refl stale)

kept_token :
    (token : Option ResumeToken) (stale : ResumeToken)
    → token ≢ some stale
    → (if option_token_eq token (some stale) then none else token) ≡ token
unfolding option_token_eq
kept_token none stale h = refl
kept_token (some t) stale h = elim (Bool-cases (token_eq t stale)) [
  | inl e ↦ absurd (h (ap some (token_eq_sound t stale e)))
  | inr e ↦ rw e refl
]

-- A token that the fresh process's fan-out stored before the process was installed survives.
pub install_keeps_backfill :
    (rp : RunningProcess) (stale : ResumeToken) (s : Session)
    → s.resume_token ≢ some stale
    → (install (inl rp, true) (some stale) s).resume_token ≡ s.resume_token
unfolding install adopt_fresh_slot
install_keeps_backfill rp stale s h = kept_token s.resume_token stale h
