-- ===== src/Session/Spawn/Protocol.antt =====
-- Callers of `ensure_running` on one session, in any interleaving of their phases: one spawner at a
-- time, no live process overwritten, and no claim that outlives its spawner.
use zeromux.ClaudeFanout.Manager.{Serializer, serve_call}
use zeromux.Effects.{Effect}
use zeromux.Prelude.{
  ℕ, suc, ◌≤◌, ◌≡◌, ◌≢◌, Bool, true, false, Option, none, some, arith, is_some, ltb, subst, ◌&&◌,
}
use zeromux.Session.{Session, ResumeToken}
use zeromux.Session.Spawn.{
  SpawnDecision, already_running, wait, spawn, decide_spawn, drop_guard, Spawned, install, poll,
  again,
}
use zeromux.Session.Scrollback.{record_and_broadcast}
use zeromux.Session.Turn

-- A session of the manager, until it is removed, and the calls that are between phase 1 and phase 3.
pub record World : Type 0 where
  pub session : Option Session
  pub spawners : ℕ

-- Phase 1 of one more caller.
claimed : SpawnDecision × Session → World → World
claimed (already_running, s) w = w
claimed (wait, s) w = w
claimed (spawn plan, s) w = record { session = some s; spawners = suc w.spawners }

unfoldable pub enter : World → World
unfolding claimed
enter w = elim w.session [ none ↦ w | some s ↦ claimed (decide_spawn s) w ]

unfoldable pub on_session : (Session → Session) → Option Session → Option Session
on_session f none = none
on_session f (some s) = some (f s)

-- The moves of the callers, of the fan-out of the session's process, and of a client that deletes it.
pub data Step : World → World → Type 0 where
  entered : (w : World) → Step w (enter w)
  finished :
      (w : World) (n : ℕ) (result : Spawned × Bool) (stale : Option ResumeToken)
      → w.spawners ≡ suc n
      → Step w (record { session = on_session (install result stale) w.session; spawners = n })
  cancelled :
      (w : World) (n : ℕ)
      → w.spawners ≡ suc n
      → Step w (record { session = on_session (drop_guard true) w.session; spawners = n })
  served :
      (w : World) (json : Serializer) (now : ℕ) (e : Effect)
      → Step w
          (record { session = on_session (serve_call json now e) w.session; spawners = w.spawners })
  deleted : (w : World) → Step w (record { session = none; spawners = w.spawners })

-- A session that is loaded or just made has no spawner, and a free flag.
pub data Reached : World → Type 0 where
  loaded : (s : Session) → s.spawning ≡ false → Reached (record { session = some s; spawners = 0 })
  moved : (w w' : World) → Reached w → Step w w' → Reached w'

abbrev pub claims : Bool → ℕ
claims true = 1
claims false = 0

abbrev Sound : ℕ → Option Session → Type 0
Sound n none = n ≤ 1
Sound n (some s) = (n ≡ claims s.spawning) × (s.spawning ≡ true → s.running ≡ none)

enter-Sound : (w : World) → Sound w.spawners w.session → Sound (enter w).spawners (enter w).session
unfolding enter decide_spawn
enter-Sound w v = ground arith

install-Sound :
    (n : ℕ) (result : Spawned × Bool) (stale : Option ResumeToken) (o : Option Session)
    → Sound (suc n) o
    → Sound n (on_session (install result stale) o)
unfolding install on_session
install-Sound n result stale o v = ground arith

drop_guard-Sound :
    (n : ℕ) (o : Option Session) → Sound (suc n) o → Sound n (on_session (drop_guard true) o)
unfolding drop_guard on_session
drop_guard-Sound n o v = ground arith

module _ (json : Serializer) (now : ℕ) where
  serve_call_spawning : (e : Effect) (s : Session) → (serve_call json now e s).spawning ≡ s.spawning
  unfolding serve_call record_and_broadcast Turn.apply_turn Turn.approval_resolved
      Turn.set_resume_token Turn.mark_queue_mode Turn.settle_posture Turn.record_run_metric
      Turn.mark_fanout_ended
  serve_call_spawning e s = ground arith

  serve_call_gone :
      (e : Effect) (s : Session) → s.running ≡ none → (serve_call json now e s).running ≡ none
  unfolding serve_call record_and_broadcast Turn.apply_turn Turn.approval_resolved
      Turn.set_resume_token Turn.mark_queue_mode Turn.settle_posture Turn.record_run_metric
      Turn.mark_fanout_ended
  serve_call_gone e s h = ground arith

  serve_call-Sound :
      (n : ℕ) (e : Effect) (o : Option Session)
      → Sound n o
      → Sound n (on_session (serve_call json now e) o)
  unfolding on_session
  serve_call-Sound n e none v = v
  serve_call-Sound n e (some s) v = ground (arith, serve_call_spawning e s, serve_call_gone e s)

Sound-le-one : (n : ℕ) (o : Option Session) → Sound n o → n ≤ 1
Sound-le-one n none v = v
Sound-le-one n (some s) v = ground arith

Step-Sound : (w w' : World) → Step w w' → Sound w.spawners w.session → Sound w'.spawners w'.session
Step-Sound _ _ (entered w) v = enter-Sound w v
Step-Sound _ _ (finished w n result stale e) v =
    install-Sound n result stale w.session (subst (λ k. Sound k w.session) e v)
Step-Sound _ _ (cancelled w n e) v =
    drop_guard-Sound n w.session (subst (λ k. Sound k w.session) e v)
Step-Sound _ _ (served w json now e) v = serve_call-Sound json now w.spawners e w.session v
Step-Sound _ _ (deleted w) v = Sound-le-one w.spawners w.session v

Reached-Sound : (w : World) → Reached w → Sound w.spawners w.session
Reached-Sound _ (loaded s e) = ground arith
Reached-Sound _ (moved w w' r step) = Step-Sound w w' step (Reached-Sound w r)

-- In any interleaving of the callers of `ensure_running`, the calls that serve the session's fan-out
-- and its removal: a session that is still there has one spawner if its flag is set and none if not,
-- and never a spawner beside a process, so that no live process is overwritten.
pub spawn_exclusive :
    (w : World) (s : Session)
    → Reached w
    → w.session ≡ some s
    → (w.spawners ≡ claims s.spawning) × ((is_some s.running && ltb 0 w.spawners) ≡ false)
spawn_exclusive w s r e =
    let v : Sound w.spawners (some s) = subst (Sound w.spawners) e (Reached-Sound w r) in
    ground arith

-- Where no spawn is in flight, no caller waits for one: phase 1 does not answer `Wait`, and a caller
-- that polls stops, whether the last spawn was installed, failed, or was cancelled half-way.
pub spawn_unwedged :
    (w : World) (s : Session)
    → Reached w
    → w.session ≡ some s
    → w.spawners ≡ 0
    → ((decide_spawn s).0 ≢ wait) × (poll (some s) ≢ again)
unfolding decide_spawn poll
spawn_unwedged w s r e idle =
    let v : Sound w.spawners (some s) = subst (Sound w.spawners) e (Reached-Sound w r) in
    (λ h. ground arith, λ h. ground arith)
