-- ===== src/AutoUpdate.antt =====
-- src/auto_update.rs: the poll loop that swaps the service for a new build. A poll is a function of
-- what it observes and of the four variables of the loop. The hash, the file system, the clocks and
-- the trial run of the new binary are observations; the script of the swap is not modelled.
pub mod Marker
pub mod Written
pub mod Swaps
pub mod Stable
pub mod Progress
use zeromux.AutoUpdate.Marker.{health_failed_recently}
use zeromux.Prelude.{
  ℕ, ◌-◌, ◌/◌, Bool, true, false, not, ◌&&◌, ◌||◌, Option, none, some, List, [], ◌∷◌, Text, text_eq,
  ◌==◌, leb, ltb, unwrap_or, if◌then◌else◌,
}
use zeromux.Session.Summary.{RunningSummary}

abbrev health_fail_ttl_secs : ℕ
health_fail_ttl_secs = 21600

pub record UpdateConfig : Type 0 where
  pub self_sha : Text
  pub max_wait_secs : ℕ

-- What one poll finds outside: the time of change and the size of the watched file, its hash if it is
-- computed, the clocks, the marker file, the manager's summary (`none` when the manager is gone),
-- whether the trial run succeeds, and the summary after it.
pub record Observation : Type 0 where
  pub stat : Option (ℕ × ℕ)
  pub hash : Option Text
  pub wall_secs : ℕ
  pub marker : Option Text
  pub mono_ms : ℕ
  pub summary : Option RunningSummary
  pub smoke_ok : Bool
  pub recheck : RunningSummary

pub record Updater : Type 0 where
  pub last_seen_sha : Option Text
  pub pending_since : Option ℕ
  pub last_stat : Option (ℕ × ℕ)
  pub smoke_failed_sha : Option Text

pub data Outcome : Type 0 where
  skipped known_bad recently_failed own_build disabled : Outcome
  wait_for_stable blocked_by_scheduled wait_interactive smoke_failed deferred : Outcome
  launch_swap : Text → Outcome

pub data GateDecision : Type 0 where
  upgrade blocked wait : GateDecision

pub data StabilityStep : Type 0 where
  skip_step : StabilityStep
  wait_stable proceed : Text → StabilityStep

abbrev pub new_updater : Updater
new_updater = record {
  last_seen_sha = none;
  pending_since = none;
  last_stat = none;
  smoke_failed_sha = none;
}

abbrev pub same_sha : Option Text → Text → Bool
same_sha none sha = false
same_sha (some seen) sha = text_eq seen sha

abbrev pub same_stat : Option (ℕ × ℕ) → ℕ × ℕ → Bool
same_stat none st = false
same_stat (some (m, n)) (mtime, size) = m == mtime && n == size

-- A change of the content waits one poll; a file that has not changed has settled.
unfoldable pub stability_step : Bool → Option Text → Option Text → StabilityStep
stability_step true (some sha) last_seen =
    if same_sha last_seen sha then proceed sha else wait_stable sha
stability_step true none last_seen = skip_step
stability_step false fresh (some sha) = proceed sha
stability_step false fresh none = skip_step

-- A scheduled run blocks for as long as it lasts, an interactive turn for `max_wait` at most.
unfoldable pub gate_decision : RunningSummary → ℕ → ℕ → GateDecision
gate_decision summary waited max_wait =
    if ltb 0 summary.scheduled
    then blocked
    else if summary.interactive == 0
    then upgrade
    else if leb max_wait waited
    then upgrade
    else wait

-- The trial run, and the second look at the scheduled runs after it.
unfoldable pub try_swap : Observation → Text → Updater → Updater × Outcome
try_swap o sha s =
    if not o.smoke_ok
    then (record s { pending_since = none; smoke_failed_sha = some sha }, smoke_failed)
    else if ltb 0 o.recheck.scheduled || o.recheck.scheduled_read_failed
    then (s, deferred)
    else (s, launch_swap sha)

abbrev pub waited_secs : ℕ → Option ℕ → ℕ
waited_secs now none = 0
waited_secs now (some since) = (now - since) / 1000

unfoldable pub pass_gate : UpdateConfig → Observation → Text → Updater → Updater × Outcome
unfolding gate_decision try_swap
pass_gate cfg o sha s = elim o.summary [
  | none ↦ (s, disabled)
  | some summary ↦
      elim (gate_decision summary (waited_secs o.mono_ms s.pending_since) cfg.max_wait_secs) [
        | blocked ↦ (s, blocked_by_scheduled)
        | wait ↦ (s, wait_interactive)
        | upgrade ↦ try_swap o sha s
      ]
]

-- A settled build: one that failed before is left, and so is the build that runs.
unfoldable pub judge : UpdateConfig → Observation → Text → Updater → Updater × Outcome
unfolding health_failed_recently pass_gate
judge cfg o sha s =
    if same_sha s.smoke_failed_sha sha
    then (s, known_bad)
    else if health_failed_recently o.marker sha o.wall_secs health_fail_ttl_secs
    then (record s { pending_since = none }, recently_failed)
    else if text_eq sha cfg.self_sha
    then (record s { pending_since = none }, own_build)
    else pass_gate cfg o sha
        (record s { pending_since = some (unwrap_or s.pending_since o.mono_ms) })

settle_step : UpdateConfig → Observation → StabilityStep → Updater → Updater × Outcome
unfolding judge
settle_step cfg o skip_step s = (s, skipped)
settle_step cfg o (wait_stable sha) s = (record s { last_seen_sha = some sha }, wait_for_stable)
settle_step cfg o (proceed sha) s = judge cfg o sha (record s { last_seen_sha = some sha })

-- The file's time and size are noted before its hash is known.
look_at : UpdateConfig → Observation → ℕ × ℕ → Updater → Updater × Outcome
unfolding settle_step stability_step
look_at cfg o st s =
    let changed = not (same_stat s.last_stat st) in
    let noted = record s { last_stat = some st } in
    let step = stability_step changed (if changed then o.hash else none) s.last_seen_sha in
    settle_step cfg o step noted

-- A file that is not there leaves the variables as they are.
on_stat : UpdateConfig → Observation → Option (ℕ × ℕ) → Updater → Updater × Outcome
unfolding look_at
on_stat cfg o none s = (s, skipped)
on_stat cfg o (some st) s = look_at cfg o st s

unfoldable pub poll : UpdateConfig → Observation → Updater → Updater × Outcome
unfolding on_stat
poll cfg o s = on_stat cfg o o.stat s

abbrev pub is_disabled : Outcome → Bool
is_disabled disabled = true
is_disabled _ = false

-- The loop, until the manager is gone.
unfoldable pub polls : UpdateConfig → List Observation → Updater → List Outcome
polls cfg [] s = []
polls cfg (o ∷ os) s =
    let later = polls cfg os (poll cfg o s).0 in
    (poll cfg o s).1 ∷ (if is_disabled (poll cfg o s).1 then [] else later)
