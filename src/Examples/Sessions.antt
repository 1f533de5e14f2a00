-- ===== src/Examples/Sessions.antt =====
-- The theorems on a session: its spawn, its scrollback and its ring of runs.
use zeromux.Examples.Data.{session, process}
use zeromux.Prelude.{
  ◌≡◌, ◌≢◌, refl, true, false, ◌&&◌, none, some, List, [], ◌∷◌, ◌++◌, inl, inr, arith, String,
  codes, is_some, ltb,
}
use zeromux.Session.{RunningProcess, Session, claude_session, tmux_session, claude}
use zeromux.Session.Persisted.{upsert, update_posture, load_row}
use zeromux.Session.Persisted.Restart.{stopped, load_row-upsert}
use zeromux.Session.Scrollback.{subscribe_with_history, received, record_and_broadcast}
use zeromux.Session.Scrollback.Bounds.{IsSuffix}
use zeromux.Session.Scrollback.Replay.{
  Sent, record_all, frames, channel, Extends, record_all-Extends, reconnect_gapless,
}
use zeromux.Session.Spawn.{
  SpawnPlan, Launch, launch_of, launch_claude, launch_codex, launch_tmux, launch_crew,
  attempted_resume, Spawned, start_process, drop_guard, decide_spawn, wait, poll, again,
}
use zeromux.Session.Spawn.Fallback.{start_process-fell_back}
use zeromux.Session.Spawn.Protocol.{
  World, enter, on_session, Reached, loaded, moved, entered, cancelled, claims, spawn_exclusive,
  spawn_unwedged,
}

abbrev asleep : Session
asleep = record session { running = none; resume_token = some (claude "old") }

abbrev claiming : Session
claiming = record asleep { spawning = true }

abbrev start_world : World
start_world = record { session = some asleep; spawners = 0 }

-- One caller has claimed the session.
abbrev spawning_world : World
spawning_world = enter start_world

spawn_exclusive_example :
    (spawning_world.spawners ≡ claims claiming.spawning)
    × ((is_some claiming.running && ltb 0 spawning_world.spawners) ≡ false)
unfolding enter decide_spawn
spawn_exclusive_example =
    spawn_exclusive spawning_world claiming
      (moved start_world spawning_world (loaded asleep refl) (entered start_world)) refl

-- It was cancelled half-way: its guard gave the session back.
abbrev released_world : World
released_world = record { session = some asleep; spawners = 0 }

released_world-Reached : Reached released_world
unfolding enter decide_spawn on_session drop_guard
released_world-Reached =
    moved spawning_world released_world
      (moved start_world spawning_world (loaded asleep refl) (entered start_world))
      (cancelled spawning_world 0 refl)

spawn_unwedged_example : ((decide_spawn asleep).0 ≢ wait) × (poll (some asleep) ≢ again)
spawn_unwedged_example = spawn_unwedged released_world asleep released_world-Reached refl refl

abbrev only_fresh : Launch → Spawned
only_fresh (launch_claude none) = inl process
only_fresh (launch_claude (some k)) = inr "no such conversation"
only_fresh (launch_codex k) = inr "no codex"
only_fresh (launch_tmux k) = inr "no tmux"
only_fresh (launch_crew slot) = inr "no gateway"

abbrev resuming : SpawnPlan
resuming = record {
  stype = claude_session;
  resume_token = some (claude "old");
  work_dir = "/w";
  owner_id = "u1";
  cols = 80;
  rows = 24;
  source_task_id = none;
  crew = none;
}

start_process-fell_back_example :
    (attempted_resume resuming.stype resuming.resume_token ≡ true)
    × (resuming.stype ≢ tmux_session)
    × ((e : String) × (only_fresh (launch_of resuming.stype resuming.resume_token resuming.crew)
          ≡ inr e))
    × ((rp : RunningProcess) × (only_fresh (launch_of resuming.stype none resuming.crew) ≡ inl rp)
        × ((start_process only_fresh resuming).0 ≡ inl rp))
unfolding start_process attempted_resume launch_of
start_process-fell_back_example = start_process-fell_back only_fresh resuming refl

abbrev two_frames : List Sent
two_frames =
    record { now = 1; frame = codes "a"; bump = true; delta = none }
    ∷ record { now = 2; frame = codes "b"; bump = true; delta = none }
    ∷ []

record_all-Extends_example : Extends session (record_all two_frames session) (frames two_frames)
record_all-Extends_example = record_all-Extends two_frames session (refl, refl)

reconnect_gapless_example :
    IsSuffix
      ((codes "a" ∷ codes "b" ∷ [])
        ++ received 2 (channel (record_all two_frames (record_all two_frames session))))
      (frames two_frames ++ frames two_frames)
unfolding record_all record_and_broadcast subscribe_with_history
reconnect_gapless_example =
    reconnect_gapless session process two_frames two_frames (codes "a" ∷ codes "b" ∷ []) 2 refl refl
      refl refl

-- A session that a restart finds in the store.
load_row-upsert_example :
    load_row 900 (update_posture session.posture (upsert session none)) ≡ stopped 900 session
load_row-upsert_example = load_row-upsert 900 session none (record {
  wide = omega arith;
  tall = omega arith;
  cols_u16 = omega arith;
  rows_u16 = omega arith;
  origin_fits = refl;
  crew_fits = refl;
  same_created = refl;
  same_task = refl;
})
