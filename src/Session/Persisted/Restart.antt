-- ===== src/Session/Persisted/Restart.antt =====
-- A session after a restart of the server is the one before it, stopped.
use zeromux.Posture
use zeromux.Posture.{Posture}
use zeromux.Prelude.{
  ℕ, ◌%◌, ◌≤◌, ◌<◌, ◌≡◌, refl, Bool, true, false, Option, none, some, [], arith, is_some, unwrap_or,
  if◌then◌else◌,
}
use zeromux.RunMetrics.{RunOutcome, completed, errored, timeout, cancelled, as_str, parse_lenient}
use zeromux.Session.{
  idle_meta, SessionType, tmux_session, claude_session, codex_session, crew_session, ResumeToken,
  claude, codex, tmux, crew, TmuxOrigin, own, external, CrewMeta, Session,
}
use zeromux.Session.Persisted.{
  map_option, and_then, type_name, type_of, to_kind_value, from_kind_value, origin_name, origin_of,
  SessionRow, persisted_posture_of, upsert, update_posture, resize_is_sane, token_of_row,
  origin_of_row, crew_of_row, posture_of_row, load_row,
}

type_of-type_name : (t : SessionType) → type_of (type_name t) ≡ t
unfolding type_of type_name
type_of-type_name tmux_session = refl
type_of-type_name claude_session = refl
type_of-type_name codex_session = refl
type_of-type_name crew_session = refl

parse_lenient-as_str : (o : RunOutcome) → parse_lenient (as_str o) ≡ some o
unfolding parse_lenient as_str
parse_lenient-as_str completed = refl
parse_lenient-as_str errored = refl
parse_lenient-as_str timeout = refl
parse_lenient-as_str cancelled = refl

outcome_kept : (o : Option RunOutcome) → and_then (map_option as_str o) parse_lenient ≡ o
outcome_kept none = refl
outcome_kept (some o) = parse_lenient-as_str o

token_kept :
    (t : Option ResumeToken)
    → token_of_row
        (map_option (λ x. (to_kind_value x).0) t)
        (map_option (λ x. (to_kind_value x).1) t)
      ≡ t
unfolding token_of_row to_kind_value from_kind_value
token_kept none = refl
token_kept (some (claude v)) = refl
token_kept (some (codex v)) = refl
token_kept (some (tmux v)) = refl
token_kept (some (crew v)) = refl

abbrev pub is_tmux : Option ResumeToken → Bool
is_tmux (some (tmux n)) = true
is_tmux (some (claude v)) = false
is_tmux (some (codex v)) = false
is_tmux (some (crew v)) = false
is_tmux none = false

abbrev pub is_crew : SessionType → Bool
is_crew crew_session = true
is_crew tmux_session = false
is_crew claude_session = false
is_crew codex_session = false

origin_kept :
    (t : Option ResumeToken) (o : Option TmuxOrigin)
    → is_some o ≡ is_tmux t
    → origin_of_row t (map_option origin_name o) ≡ o
unfolding origin_of_row origin_of origin_name
origin_kept (some (tmux n)) (some own) h = refl
origin_kept (some (tmux n)) (some external) h = refl
origin_kept (some (tmux n)) none h = cc
origin_kept (some (claude v)) none h = refl
origin_kept (some (claude v)) (some o) h = cc
origin_kept (some (codex v)) none h = refl
origin_kept (some (codex v)) (some o) h = cc
origin_kept (some (crew v)) none h = refl
origin_kept (some (crew v)) (some o) h = cc
origin_kept none none h = refl
origin_kept none (some o) h = cc

crew_kept :
    (t : SessionType) (r : SessionRow) (c : Option CrewMeta)
    → is_some c ≡ is_crew t
    → r.crew_mode ≡ unwrap_or (map_option (λ (x : CrewMeta). x.mode) c) ""
    → r.crew_agent ≡ unwrap_or (map_option (λ (x : CrewMeta). x.agent) c) ""
    → r.crew_origin ≡ unwrap_or (map_option (λ (x : CrewMeta). x.origin) c) "zeromux"
    → crew_of_row t r ≡ c
unfolding crew_of_row
crew_kept crew_session r (some x) h a b d = ground arith
crew_kept crew_session r none h a b d = cc
crew_kept tmux_session r none h a b d = refl
crew_kept tmux_session r (some x) h a b d = cc
crew_kept claude_session r none h a b d = refl
crew_kept claude_session r (some x) h a b d = cc
crew_kept codex_session r none h a b d = refl
crew_kept codex_session r (some x) h a b d = cc

abbrev pub kept_posture : Posture → Posture
kept_posture p = record Posture.default {
  last_outcome = p.last_outcome;
  last_outcome_ms = p.last_outcome_ms;
  last_snippet = p.last_snippet;
  awaiting_input = p.awaiting_input;
}

posture_kept : (p : Posture) → posture_of_row (persisted_posture_of p) ≡ kept_posture p
unfolding posture_of_row persisted_posture_of
posture_kept p = rw (outcome_kept p.last_outcome) refl

-- What the program keeps of a session's columns: a size in 16 bits that a client may set, an origin
-- for tmux sessions, gateway data for crew sessions, and a row that was written for this session.
pub record IsPersistable (s : Session) (old : Option SessionRow) : Type 0 where
  pub wide : 20 ≤ s.cols
  pub tall : 5 ≤ s.rows
  pub cols_u16 : s.cols < 65536
  pub rows_u16 : s.rows < 65536
  pub origin_fits : is_some s.tmux_origin ≡ is_tmux s.resume_token
  pub crew_fits : is_some s.crew_meta ≡ is_crew s.session_type
  pub same_created :
      unwrap_or (map_option (λ (r : SessionRow). r.created_ms) old) s.created_ms ≡ s.created_ms
  pub same_task :
      unwrap_or (map_option (λ (r : SessionRow). r.source_task_id) old) s.source_task_id
      ≡ s.source_task_id

-- The session with no process, and nothing that only a process or the server's life has.
abbrev pub stopped : ℕ → Session → Session
stopped now s = record s {
  status = idle_meta;
  spawning = false;
  last_activity_ms = now;
  turns_completed = 0;
  run_metrics = [];
  lifetime_turns = 0;
  lifetime_duration_ms = 0;
  lifetime_cost_usd = 0;
  posture = kept_posture s.posture;
  running = none;
  scrollback = [];
  scrollback_bytes = 0;
}

size_kept :
    (cols rows : ℕ)
    → 20 ≤ cols
    → 5 ≤ rows
    → cols < 65536
    → rows < 65536
    → ((if resize_is_sane (cols % 65536) (rows % 65536) then cols % 65536 else 80) ≡ cols)
      × ((if resize_is_sane (cols % 65536) (rows % 65536) then rows % 65536 else 24) ≡ rows)
unfolding resize_is_sane
size_kept cols rows a b c d = ground arith

-- A session whose row and posture are written and which a restarted server loads is the one before it
-- with no process: its name, kind, owner, size, resume token, origin, undo window, gateway data and
-- the lasting part of its posture are all kept, if the size is one that a client may set, tmux
-- sessions and only they have an origin, crew sessions and only they have gateway data, and an older
-- row was of this session.
pub load_row-upsert :
    (now : ℕ) (s : Session) (old : Option SessionRow)
    → IsPersistable s old
    → load_row now (update_posture s.posture (upsert s old)) ≡ stopped now s
unfolding load_row update_posture upsert
load_row-upsert now s old v =
    let row = update_posture s.posture (upsert s old) in
    let (c, r) = size_kept s.cols s.rows v.wide v.tall v.cols_u16 v.rows_u16 in
    rw
      (
        type_of-type_name s.session_type,
        token_kept s.resume_token,
        origin_kept s.resume_token s.tmux_origin v.origin_fits,
        crew_kept s.session_type row s.crew_meta v.crew_fits refl refl refl,
        posture_kept s.posture,
        c,
        r,
        v.same_created,
        v.same_task,
      )
      refl
