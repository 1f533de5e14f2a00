-- ===== src/Session/Persisted.antt =====
-- What of a session outlives the server: src/session_store.rs, and `persisted_of` and `load_persisted`
-- of src/session_manager.rs. A statement of SQL is a function on the row of the session; a statement
-- that fails is not modelled.
pub mod Restart
use zeromux.Posture.{Posture}
use zeromux.Posture
use zeromux.Prelude.{
  ℕ, ◌%◌, String, str_eq, Bool, true, false, ◌&&◌, Option, none, some, List, [], ◌∷◌, Text, codes,
  starts_with, leb, unwrap_or, if◌then◌else◌,
}
use zeromux.RunMetrics.{RunOutcome, as_str, parse_lenient}
use zeromux.Session.{
  idle_meta, SessionType, tmux_session, claude_session, codex_session, crew_session, ResumeToken,
  claude, codex, tmux, crew, TmuxOrigin, own, external, CrewMeta, Session,
}

abbrev pub map_option : {A B : Type 0} → (A → B) → Option A → Option B
map_option f none = none
map_option f (some a) = some (f a)

abbrev pub and_then : {A B : Type 0} → Option A → (A → Option B) → Option B
and_then none f = none
and_then (some a) f = f a

-- `Display for SessionType` and its lenient reader.
unfoldable pub type_name : SessionType → String
type_name tmux_session = "tmux"
type_name claude_session = "claude"
type_name codex_session = "codex"
type_name crew_session = "crew"

unfoldable pub type_of : String → SessionType
type_of s =
    if str_eq s "claude"
    then claude_session
    else if str_eq s "codex"
    then codex_session
    else if str_eq s "crew"
    then crew_session
    else tmux_session

unfoldable pub to_kind_value : ResumeToken → String × String
to_kind_value (claude v) = ("claude", v)
to_kind_value (codex v) = ("codex", v)
to_kind_value (tmux v) = ("tmux", v)
to_kind_value (crew v) = ("crew", v)

unfoldable pub from_kind_value : String → String → Option ResumeToken
from_kind_value kind value =
    if str_eq kind "claude"
    then some (claude value)
    else if str_eq kind "codex"
    then some (codex value)
    else if str_eq kind "tmux"
    then some (tmux value)
    else if str_eq kind "crew"
    then some (crew value)
    else none

unfoldable pub origin_name : TmuxOrigin → String
origin_name own = "own"
origin_name external = "external"

unfoldable pub origin_of : String → TmuxOrigin
origin_of s = if str_eq s "external" then external else own

pub record PersistedPosture : Type 0 where
  pub last_outcome : Option String
  pub last_outcome_ms : Option ℕ
  pub last_snippet : Option Text
  pub awaiting_input : Bool

-- A row of the table `sessions`.
pub record SessionRow : Type 0 where
  pub id : String
  pub name : String
  pub type_str : String
  pub work_dir : String
  pub owner_id : String
  pub description : String
  pub resume_kind : Option String
  pub resume_value : Option String
  pub worktree_path : Option String
  pub created_ms : ℕ
  pub source_task_id : Option String
  pub name_is_auto : Bool
  pub tmux_origin : Option String
  pub cols : ℕ
  pub rows : ℕ
  pub pending_kill_until : Option ℕ
  pub posture : PersistedPosture
  pub crew_mode : String
  pub crew_agent : String
  pub crew_origin : String

unfoldable pub persisted_posture_of : Posture → PersistedPosture
persisted_posture_of p = record {
  last_outcome = map_option as_str p.last_outcome;
  last_outcome_ms = p.last_outcome_ms;
  last_snippet = p.last_snippet;
  awaiting_input = p.awaiting_input;
}

-- The defaults of the posture columns, which an upsert does not write.
abbrev pub no_posture : PersistedPosture
no_posture = record {
  last_outcome = none;
  last_outcome_ms = none;
  last_snippet = none;
  awaiting_input = false;
}

-- INSERT … ON CONFLICT(id) DO UPDATE of `persisted_of` the session: the columns of creation and the
-- posture stay as an older row has them.
unfoldable pub upsert : Session → Option SessionRow → SessionRow
unfolding type_name to_kind_value origin_name
upsert s old = record {
  id = s.id;
  name = s.name;
  type_str = type_name s.session_type;
  work_dir = s.work_dir;
  owner_id = s.owner_id;
  description = s.description;
  resume_kind = map_option (λ t. (to_kind_value t).0) s.resume_token;
  resume_value = map_option (λ t. (to_kind_value t).1) s.resume_token;
  worktree_path = s.worktree_path;
  created_ms = unwrap_or (map_option (λ (r : SessionRow). r.created_ms) old) s.created_ms;
  source_task_id =
      unwrap_or (map_option (λ (r : SessionRow). r.source_task_id) old) s.source_task_id;
  name_is_auto = s.name_is_auto;
  tmux_origin = map_option origin_name s.tmux_origin;
  cols = s.cols;
  rows = s.rows;
  pending_kill_until = s.pending_kill_until;
  posture = unwrap_or (map_option (λ (r : SessionRow). r.posture) old) no_posture;
  crew_mode = unwrap_or (map_option (λ (c : CrewMeta). c.mode) s.crew_meta) "";
  crew_agent = unwrap_or (map_option (λ (c : CrewMeta). c.agent) s.crew_meta) "";
  crew_origin = unwrap_or (map_option (λ (c : CrewMeta). c.origin) s.crew_meta) "zeromux";
}

unfoldable pub update_posture : Posture → SessionRow → SessionRow
unfolding persisted_posture_of
update_posture p r = record r { posture = persisted_posture_of p }

unfoldable pub resize_is_sane : ℕ → ℕ → Bool
resize_is_sane cols rows = leb 20 cols && leb 5 rows

token_of_row : Option String → Option String → Option ResumeToken
unfolding from_kind_value
token_of_row (some k) (some v) = from_kind_value k v
token_of_row none v = none
token_of_row (some k) none = none

-- A row of an older version has no origin; its name tells.
origin_of_row : Option ResumeToken → Option String → Option TmuxOrigin
unfolding origin_of
origin_of_row (some (tmux n)) (some o) = some (origin_of o)
origin_of_row (some (tmux n)) none =
    some (if starts_with (codes "zmx-") (codes n) then own else external)
origin_of_row (some (claude v)) o = none
origin_of_row (some (codex v)) o = none
origin_of_row (some (crew v)) o = none
origin_of_row none o = none

crew_of_row : SessionType → SessionRow → Option CrewMeta
crew_of_row crew_session r =
    some (record { mode = r.crew_mode; agent = r.crew_agent; origin = r.crew_origin })
crew_of_row tmux_session r = none
crew_of_row claude_session r = none
crew_of_row codex_session r = none

posture_of_row : PersistedPosture → Posture
unfolding Posture.default
posture_of_row p = record Posture.default {
  last_outcome = and_then p.last_outcome parse_lenient;
  last_outcome_ms = p.last_outcome_ms;
  last_snippet = p.last_snippet;
  awaiting_input = p.awaiting_input;
}

-- A session of the row, with no process. A size below the smallest one is replaced.
unfoldable pub load_row : ℕ → SessionRow → Session
unfolding type_of resize_is_sane token_of_row origin_of_row crew_of_row posture_of_row
load_row now r =
    let cols = r.cols % 65536 in
    let rows = r.rows % 65536 in
    let sane = resize_is_sane cols rows in
    let token = token_of_row r.resume_kind r.resume_value in
    record {
      id = r.id;
      name = r.name;
      session_type = type_of r.type_str;
      cols = if sane then cols else 80;
      rows = if sane then rows else 24;
      work_dir = r.work_dir;
      owner_id = r.owner_id;
      description = r.description;
      name_is_auto = r.name_is_auto;
      status = idle_meta;
      resume_token = token;
      tmux_origin = origin_of_row token r.tmux_origin;
      pending_kill_until = r.pending_kill_until;
      worktree_path = r.worktree_path;
      created_ms = r.created_ms;
      source_task_id = r.source_task_id;
      spawning = false;
      last_activity_ms = now;
      turns_completed = 0;
      run_metrics = [];
      lifetime_turns = 0;
      lifetime_duration_ms = 0;
      lifetime_cost_usd = 0;
      posture = posture_of_row r.posture;
      crew_meta = crew_of_row (type_of r.type_str) r;
      running = none;
      scrollback = [];
      scrollback_bytes = 0;
    }
